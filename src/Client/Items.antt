-- ===== src/Client/Items.antt =====
-- What the decoders of the client read of the documents of the views' parts.
use devlegate.Prelude.{
  String, ◌≡◌, ◌∙◌, ap, refl, Bool, true, false, Bool-cases, inl, inr, Option, none, some, List, [],
  ◌∷◌, In, str_eq,
}
use devlegate.Values.{
  Value, Fields, obj, arr, no_fields, str, field, get, as_dict, as_text, as_bool, item_as,
  nullable_text, nullable_item, text_or_null,
}
use devlegate.Views.{
  GitObservation, ExecutionPlan, Titled, Dependency, BlockedReason, Blocked, FailedExecution, dicts,
  dict_or_none, observation_as_dict, observations_as_dict, plan_ticket, plan_as_dict,
  titled_as_dict, dependency_as_dict, reason_ticket, reason_as_dict, blocked_as_dict,
  failure_as_dict,
}
use devlegate.Client.Decode.{
  nullable, optional, decode_items, decode_list, decode_observation, ticket_text, decode_plan,
  decode_titled, decode_dependency, decode_reason_of, decode_reason, decode_blocked, manual_retry,
  decode_failure,
}

pub nullable_text-text_or_null : (o : Option String) → nullable_text (text_or_null o) ≡ some o
unfolding nullable_text text_or_null
nullable_text-text_or_null none = refl
nullable_text-text_or_null (some s) = refl

module _ {A : Type 0} (f : A → Fields) (g : Value → Option A) where
  pub decode_items-dicts :
      (l : List A)
      → ((x : A) → In x l → g (obj (f x)) ≡ some x)
      → decode_items g (dicts f l) ≡ some l
  unfolding decode_items dicts
  decode_items-dicts [] h = refl
  decode_items-dicts (x ∷ l) h = rw (h x (inl refl), decode_items-dicts l (λ y m. h y (inr m))) refl

  pub nullable-dict_or_none :
      (o : Option A) → ((x : A) → g (obj (f x)) ≡ some x) → nullable g (dict_or_none f o) ≡ some o
  unfolding nullable dict_or_none
  nullable-dict_or_none none h = refl
  nullable-dict_or_none (some x) h = rw (h x) refl

pub decode_observation-as_dict :
    (o : GitObservation) → decode_observation (obj (observation_as_dict o)) ≡ some o
unfolding decode_observation observation_as_dict as_dict as_bool as_text item_as get
decode_observation-as_dict o =
    rw (nullable_text-text_or_null o.branch, nullable_text-text_or_null o.remote_head) refl

pub decode_titled-as_dict : (t : Titled) → decode_titled (obj (titled_as_dict t)) ≡ some t
unfolding decode_titled titled_as_dict as_dict as_text item_as get
decode_titled-as_dict t = refl

pub decode_dependency-as_dict :
    (d : Dependency) → decode_dependency (obj (dependency_as_dict d)) ≡ some d
unfolding decode_dependency dependency_as_dict as_dict as_text item_as get
decode_dependency-as_dict d = refl

pub decode_failure-as_dict :
    (f : FailedExecution) → decode_failure (obj (failure_as_dict f)) ≡ some f
unfolding decode_failure failure_as_dict manual_retry as_dict as_text as_bool item_as get
decode_failure-as_dict f =
    rw
      (
        nullable_text-text_or_null f.nonretryable_reason,
        nullable_text-text_or_null f.interruption_kind,
      )
      refl

-- A reason as the code builds it: the dependencies, or at most a ticket.
pub record IsReason (r : BlockedReason) : Type 0 where
  pub of_dependencies : str_eq r.kind "dependencies" ≡ true → r.ticket_id ≡ none
  pub of_others : str_eq r.kind "dependencies" ≡ false → r.tickets ≡ []

abbrev reason_of : String → Option String → List Dependency → BlockedReason
reason_of kind o ds = record { kind = kind; ticket_id = o; tickets = ds }

decode_reason-kind :
    (kind : String) (fs : Fields)
    → decode_reason (field "kind" (str kind) fs)
      ≡ decode_reason_of kind (field "kind" (str kind) fs)
unfolding decode_reason as_text item_as get
decode_reason-kind kind fs = refl

-- A reason with dependencies keeps them; any other keeps its ticket.
reason_dependencies :
    (kind : String) (o : Option String) (ds : List Dependency)
    → str_eq kind "dependencies" ≡ true
    → o ≡ none
    → decode_reason (reason_as_dict (reason_of kind o ds)) ≡ some (reason_of kind o ds)
unfolding decode_reason_of reason_as_dict item_as get decode_list
reason_dependencies kind o ds here e =
    ap decode_reason (rw here refl)
    ∙ decode_reason-kind kind (field "tickets" (arr (dicts dependency_as_dict ds)) no_fields)
    ∙ rw
        (
          here,
          decode_items-dicts dependency_as_dict decode_dependency ds
              (λ d m. decode_dependency-as_dict d),
          e,
        )
        refl

reason_ticket_item :
    (kind : String) (o : Option String)
    → nullable_item "ticket_id" (field "kind" (str kind) (reason_ticket o)) ≡ some o
unfolding reason_ticket nullable_item nullable_text get
reason_ticket_item kind none = refl
reason_ticket_item kind (some t) = refl

reason_other :
    (kind : String) (o : Option String) (ds : List Dependency)
    → str_eq kind "dependencies" ≡ false
    → ds ≡ []
    → decode_reason (reason_as_dict (reason_of kind o ds)) ≡ some (reason_of kind o ds)
unfolding decode_reason_of reason_as_dict
reason_other kind o ds other e =
    ap decode_reason (rw other refl)
    ∙ decode_reason-kind kind (reason_ticket o)
    ∙ rw (other, reason_ticket_item kind o, e) refl

decode_reason-as_dict : (r : BlockedReason) → IsReason r → decode_reason (reason_as_dict r) ≡ some r
decode_reason-as_dict r h = elim (Bool-cases (str_eq r.kind "dependencies")) [
  | inl here ↦ reason_dependencies r.kind r.ticket_id r.tickets here (h.of_dependencies here)
  | inr other ↦ reason_other r.kind r.ticket_id r.tickets other (h.of_others other)
]

pub decode_blocked-as_dict :
    (b : Blocked) → IsReason b.reason → decode_blocked (obj (blocked_as_dict b)) ≡ some b
unfolding decode_blocked blocked_as_dict as_dict as_text item_as get
decode_blocked-as_dict b h = rw (decode_reason-as_dict b.reason h) refl

-- A plan as the code builds it: without a ticket there is no title and no state.
pub record IsPlan (p : ExecutionPlan) : Type 0 where
  pub title : p.ticket_id ≡ none → p.ticket_title ≡ none
  pub state : p.ticket_id ≡ none → p.ticket_state ≡ none

observed :
    (o : Option GitObservation)
    → nullable decode_observation (dict_or_none observation_as_dict o) ≡ some o
observed o =
    nullable-dict_or_none observation_as_dict decode_observation o decode_observation-as_dict

pub decode_plan-as_dict : (p : ExecutionPlan) → IsPlan p → decode_plan (plan_as_dict p) ≡ some p
unfolding decode_plan plan_as_dict plan_ticket observations_as_dict dict_or_none nullable optional
    ticket_text as_dict as_text as_bool item_as get nullable_item
decode_plan-as_dict p h =
    plan_ticket_cases p.action p.reason p.ticket_id p.ticket_title p.ticket_state p.bound p.code
      p.control h.title h.state
  where
    plan_ticket_cases :
        (action reason : String) (id title state : Option String) (bound : Bool)
        (code control : Option GitObservation)
        → (id ≡ none → title ≡ none)
        → (id ≡ none → state ≡ none)
        → decode_plan (
            plan_as_dict (record {
              action = action;
              reason = reason;
              ticket_id = id;
              ticket_title = title;
              ticket_state = state;
              bound = bound;
              code = code;
              control = control;
            }))
          ≡ some (record {
            action = action;
            reason = reason;
            ticket_id = id;
            ticket_title = title;
            ticket_state = state;
            bound = bound;
            code = code;
            control = control;
          })
    plan_ticket_cases action reason none title state bound code control h k =
        rw (h refl, k refl, observed code, observed control) refl
    plan_ticket_cases action reason (some id) title state bound code control h k =
        rw
          (
            nullable_text-text_or_null title,
            nullable_text-text_or_null state,
            observed code,
            observed control,
          )
          refl
