-- ===== src/Views.antt =====
-- The views of src/devlegate/runtime.py that a service publishes, and their documents.
-- A tuple of an ID and a title, of a dependency and its state, or of a state and its count is a record.
use devlegate.Prelude.{String, Bool, Option, none, some, List, [], ◌∷◌, str_eq, if◌then◌else◌}
use devlegate.Values.{
  Value, Items, Fields, obj, arr, str, int, bool, null, field, no_fields, item, no_items, put,
  text_or_null,
}
use devlegate.Values.Int.{ℤ}

pub record GitObservation : Type 0 where
  pub branch : Option String
  pub detached : Bool
  pub local_head : String
  pub remote_ref : String
  pub remote_head : Option String
  pub working_tree_clean : Bool
  pub working_tree_fingerprint : String

pub record ExecutionPlan : Type 0 where
  pub action : String
  pub reason : String
  pub ticket_id : Option String
  pub ticket_title : Option String
  pub ticket_state : Option String
  pub bound : Bool
  pub code : Option GitObservation
  pub control : Option GitObservation

pub record Titled : Type 0 where
  pub id : String
  pub title : String

pub record Dependency : Type 0 where
  pub id : String
  pub state : String

pub record BlockedReason : Type 0 where
  pub kind : String
  pub ticket_id : Option String
  pub tickets : List Dependency

pub record Blocked : Type 0 where
  pub id : String
  pub title : String
  pub reason : BlockedReason

pub record FailedExecution : Type 0 where
  pub ticket_id : String
  pub title : String
  pub reason : String
  pub retryable : Bool
  pub nonretryable_reason : Option String
  pub interruption_kind : Option String
  pub manual_retry_required : Bool

pub record Count : Type 0 where
  pub state : String
  pub number : ℤ

pub record Integration : Type 0 where
  pub ticket_id : String
  pub state : String

pub record StatusSnapshot : Type 0 where
  pub phase : String
  pub bound_ticket_id : Option String
  pub persisted_body_present : Bool
  pub code : GitObservation
  pub control : Option GitObservation
  pub counts : List Count
  pub runnable : List Titled
  pub blocked : List Blocked
  pub review : List Titled
  pub accepted : List Titled
  pub next_ticket : Option Titled
  pub plan : ExecutionPlan
  pub failed_executions : List FailedExecution
  pub reconciliation : Option Fields
  pub execution_stage : Option String
  pub execution_id : Option String
  pub bound_ticket_title : Option String
  pub lifecycle_integration : Option Integration
  pub eligible : List Titled

-- `[f(x) for x in l]`, where `f` builds a dict
unfoldable pub dicts : {A : Type 0} → (A → Fields) → List A → Items
dicts f [] = no_items
dicts f (x ∷ l) = item (obj (f x)) (dicts f l)

-- `f(x) if x is not None else None`, where `f` builds a dict
unfoldable pub dict_or_none : {A : Type 0} → (A → Fields) → Option A → Value
dict_or_none f none = null
dict_or_none f (some x) = obj (f x)

unfoldable pub observation_as_dict : GitObservation → Fields
unfolding text_or_null
observation_as_dict o = field "branch" (text_or_null o.branch) (
    field "detached" (bool o.detached) (
      field "local_head" (str o.local_head) (
        field "remote_ref" (str o.remote_ref) (
          field "remote_head" (text_or_null o.remote_head) (
            field "working_tree_clean" (bool o.working_tree_clean)
              (field "working_tree_fingerprint" (str o.working_tree_fingerprint) no_fields))))))

-- The `observation` of a plan and of a status.
unfoldable pub observations_as_dict : Value → Option GitObservation → Fields
unfolding dict_or_none observation_as_dict
observations_as_dict code control =
    field "code" code (field "control" (dict_or_none observation_as_dict control) no_fields)

unfoldable pub plan_ticket : ExecutionPlan → String → Fields
unfolding text_or_null
plan_ticket p id = field "id" (str id) (
    field "title" (text_or_null p.ticket_title)
      (field "state" (text_or_null p.ticket_state) no_fields))

unfoldable pub plan_as_dict : ExecutionPlan → Fields
unfolding dict_or_none observations_as_dict observation_as_dict plan_ticket
plan_as_dict p = field "action" (str p.action) (
    field "reason" (str p.reason) (
      field "ticket" (dict_or_none (plan_ticket p) p.ticket_id) (
        field "bound" (bool p.bound) (
          field "observation"
            (obj (observations_as_dict (dict_or_none observation_as_dict p.code) p.control))
            no_fields))))

unfoldable pub titled_as_dict : Titled → Fields
titled_as_dict t = field "id" (str t.id) (field "title" (str t.title) no_fields)

unfoldable pub dependency_as_dict : Dependency → Fields
dependency_as_dict d = field "id" (str d.id) (field "state" (str d.state) no_fields)

unfoldable pub reason_ticket : Option String → Fields
reason_ticket none = no_fields
reason_ticket (some t) = field "ticket_id" (str t) no_fields

unfoldable pub reason_as_dict : BlockedReason → Fields
unfolding dicts dependency_as_dict reason_ticket
reason_as_dict r =
    if str_eq r.kind "dependencies"
    then field "kind" (str r.kind)
        (field "tickets" (arr (dicts dependency_as_dict r.tickets)) no_fields)
    else field "kind" (str r.kind) (reason_ticket r.ticket_id)

unfoldable pub blocked_as_dict : Blocked → Fields
unfolding reason_as_dict
blocked_as_dict b =
    field "id" (str b.id)
      (field "title" (str b.title) (field "reason" (obj (reason_as_dict b.reason)) no_fields))

unfoldable pub failure_as_dict : FailedExecution → Fields
unfolding text_or_null
failure_as_dict f = field "id" (str f.ticket_id) (
    field "title" (str f.title) (
      field "reason" (str f.reason) (
        field "retryable" (bool f.retryable) (
          field "nonretryable_reason" (text_or_null f.nonretryable_reason) (
            field "interruption_kind" (text_or_null f.interruption_kind)
              (field "manual_retry_required" (bool f.manual_retry_required) no_fields))))))

-- `dict(counts)`
unfoldable pub counts_as_dict : Fields → List Count → Fields
unfolding put
counts_as_dict fs [] = fs
counts_as_dict fs (c ∷ cs) = counts_as_dict (put c.state (int c.number) fs) cs

-- `x if self.bound_ticket_id else None`
unfoldable pub if_bound : Option String → Option String → Value
unfolding text_or_null
if_bound none x = null
if_bound (some t) x = if str_eq t "" then null else text_or_null x

unfoldable pub execution_as_dict : StatusSnapshot → Fields
unfolding if_bound text_or_null
execution_as_dict s = field "phase" (str s.phase) (
    field "stage" (if_bound s.bound_ticket_id s.execution_stage) (
      field "execution_id" (if_bound s.bound_ticket_id s.execution_id) (
        field "bound_ticket" (text_or_null s.bound_ticket_id) (
          field "ticket_title" (text_or_null s.bound_ticket_title)
            (field "persisted_body" (bool s.persisted_body_present) no_fields)))))

unfoldable pub tickets_as_dict : StatusSnapshot → Fields
unfolding counts_as_dict dicts dict_or_none titled_as_dict blocked_as_dict
tickets_as_dict s = field "counts" (obj (counts_as_dict no_fields s.counts)) (
    field "eligible" (arr (dicts titled_as_dict s.eligible)) (
      field "blocked" (arr (dicts blocked_as_dict s.blocked)) (
        field "review" (arr (dicts titled_as_dict s.review)) (
          field "accepted" (arr (dicts titled_as_dict s.accepted))
            (field "next" (dict_or_none titled_as_dict s.next_ticket) no_fields)))))

unfoldable pub lifecycle_as_dict : Option Integration → Fields
lifecycle_as_dict none = no_fields
lifecycle_as_dict (some i) =
    field "lifecycle"
      (obj (
        field "integration"
          (obj (field "ticket_id" (str i.ticket_id) (field "state" (str i.state) no_fields)))
          no_fields))
      no_fields

unfoldable pub status_as_dict : StatusSnapshot → Fields
unfolding execution_as_dict observations_as_dict observation_as_dict tickets_as_dict plan_as_dict
    dicts failure_as_dict dict_or_none lifecycle_as_dict
status_as_dict s = field "execution" (obj (execution_as_dict s)) (
    field "observation" (obj (observations_as_dict (obj (observation_as_dict s.code)) s.control)) (
      field "tickets" (obj (tickets_as_dict s)) (
        field "plan" (obj (plan_as_dict s.plan)) (
          field "failed_executions" (arr (dicts failure_as_dict s.failed_executions)) (
            field "reconciliation" (dict_or_none (λ fs. fs) s.reconciliation)
              (lifecycle_as_dict s.lifecycle_integration))))))
