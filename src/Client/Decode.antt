-- ===== src/Client/Decode.antt =====
-- The decoders of src/devlegate/ipc_client.py for a plan and a status. `none` is a `KeyError`, a
-- `TypeError` or a `ValueError`; the entry points turn each of them into the same `IPCClientError`.
pub mod Status
use devlegate.Prelude.{
  String, Bool, false, Option, none, some, List, [], ◌∷◌, str_eq, if◌then◌else◌, same_set,
}
use devlegate.Values.{
  Value, Items, Fields, arr, null, no_fields, item, no_items, get, keys, as_dict, as_text, as_bool,
  as_int, item_as, nullable_text, nullable_item,
}
use devlegate.Views.{
  GitObservation, ExecutionPlan, Titled, Dependency, BlockedReason, Blocked, FailedExecution, Count,
  Integration, StatusSnapshot,
}

infixl 5 ◌>>=◌
abbrev pub ◌>>=◌ : {A B : Type 0} → Option A → (A → Option B) → Option B
o >>= f = elim o [ none ↦ none | some a ↦ f a ]

-- `if not test: raise`
abbrev pub check : Bool → Option (Unit {0})
check b = if b then some tt else none

-- `None if value is None else f(value)`
unfoldable pub nullable : {A : Type 0} → (Value → Option A) → Value → Option (Option A)
nullable f null = some none
nullable f v = elim (f v) [ none ↦ none | some a ↦ some (some a) ]

-- The same of `fields.get(key)`.
unfoldable pub optional : {A : Type 0} → (Value → Option A) → String → Fields → Option (Option A)
unfolding get nullable
optional f k fs = elim (get k fs) [ none ↦ some none | some v ↦ nullable f v ]

-- The loop over a list.
unfoldable pub decode_items : {A : Type 0} → (Value → Option A) → Items → Option (List A)
decode_items f no_items = some []
decode_items f (item v vs) =
    let rest = decode_items f vs in
    elim (f v) [ none ↦ none | some a ↦ elim rest [ none ↦ none | some l ↦ some (a ∷ l) ] ]

unfoldable pub decode_list : {A : Type 0} → (Value → Option A) → Value → Option (List A)
unfolding decode_items
decode_list f (arr vs) = decode_items f vs
decode_list f _ = none

unfoldable pub decode_observation : Value → Option GitObservation
unfolding as_dict as_bool as_text item_as nullable_text
decode_observation value = do
  mapping ← as_dict value
  branch ← item_as nullable_text "branch" mapping
  detached ← item_as as_bool "detached" mapping
  local_head ← item_as as_text "local_head" mapping
  remote_ref ← item_as as_text "remote_ref" mapping
  remote_head ← item_as nullable_text "remote_head" mapping
  clean ← item_as as_bool "working_tree_clean" mapping
  fingerprint ← item_as as_text "working_tree_fingerprint" mapping
  some (record {
    branch = branch;
    detached = detached;
    local_head = local_head;
    remote_ref = remote_ref;
    remote_head = remote_head;
    working_tree_clean = clean;
    working_tree_fingerprint = fingerprint;
  })

-- `_optional_text(ticket.get(key)) if ticket is not None else None`
unfoldable pub ticket_text : String → Option Fields → Option (Option String)
unfolding nullable_item
ticket_text k none = some none
ticket_text k (some ticket) = nullable_item k ticket

unfoldable pub decode_plan : Fields → Option ExecutionPlan
unfolding as_dict as_text as_bool item_as nullable optional decode_observation ticket_text
decode_plan value = do
  ticket ← item_as (nullable as_dict) "ticket" value
  observation ← item_as as_dict "observation" value
  action ← item_as as_text "action" value
  reason ← item_as as_text "reason" value
  ticket_id ← ticket_text "id" ticket
  ticket_title ← ticket_text "title" ticket
  ticket_state ← ticket_text "state" ticket
  bound ← item_as as_bool "bound" value
  code ← optional decode_observation "code" observation
  control ← optional decode_observation "control" observation
  some (record {
    action = action;
    reason = reason;
    ticket_id = ticket_id;
    ticket_title = ticket_title;
    ticket_state = ticket_state;
    bound = bound;
    code = code;
    control = control;
  })

-- An item of `_ticket_pairs`.
unfoldable pub decode_titled : Value → Option Titled
unfolding as_dict as_text item_as
decode_titled value = do
  mapping ← as_dict value
  id ← item_as as_text "id" mapping
  title ← item_as as_text "title" mapping
  some (record { id = id; title = title })

-- An item of `_dependency_pairs`.
unfoldable pub decode_dependency : Value → Option Dependency
unfolding as_dict as_text item_as
decode_dependency value = do
  mapping ← as_dict value
  id ← item_as as_text "id" mapping
  state ← item_as as_text "state" mapping
  some (record { id = id; state = state })

-- The reason of an item of `_blocked`, behind its kind.
unfoldable pub decode_reason_of : String → Fields → Option BlockedReason
unfolding item_as decode_list decode_dependency nullable_item
decode_reason_of kind mapping =
    if str_eq kind "dependencies"
    then (item_as (decode_list decode_dependency) "tickets" mapping >>= λ tickets.
        some (record { kind = kind; ticket_id = none; tickets = tickets }))
    else (nullable_item "ticket_id" mapping >>= λ ticket_id.
        some (record { kind = kind; ticket_id = ticket_id; tickets = [] }))

unfoldable pub decode_reason : Fields → Option BlockedReason
unfolding as_text item_as decode_reason_of
decode_reason mapping = do kind ← item_as as_text "kind" mapping; decode_reason_of kind mapping

-- An item of `_blocked`.
unfoldable pub decode_blocked : Value → Option Blocked
unfolding as_dict as_text item_as decode_reason
decode_blocked value = do
  mapping ← as_dict value
  reason_mapping ← item_as as_dict "reason" mapping
  reason ← decode_reason reason_mapping
  id ← item_as as_text "id" mapping
  title ← item_as as_text "title" mapping
  some (record { id = id; title = title; reason = reason })

-- An item of `_failures`; `mapping.get("manual_retry_required", False)`.
unfoldable pub manual_retry : Fields → Option Bool
unfolding get as_bool
manual_retry mapping = elim (get "manual_retry_required" mapping) [
  | none ↦ some false
  | some v ↦ as_bool v
]

unfoldable pub decode_failure : Value → Option FailedExecution
unfolding as_dict as_text as_bool item_as nullable_text manual_retry
decode_failure value = do
  mapping ← as_dict value
  ticket_id ← item_as as_text "id" mapping
  title ← item_as as_text "title" mapping
  reason ← item_as as_text "reason" mapping
  retryable ← item_as as_bool "retryable" mapping
  nonretryable_reason ← item_as nullable_text "nonretryable_reason" mapping
  interruption_kind ← item_as nullable_text "interruption_kind" mapping
  manual ← manual_retry mapping
  some (record {
    ticket_id = ticket_id;
    title = title;
    reason = reason;
    retryable = retryable;
    nonretryable_reason = nonretryable_reason;
    interruption_kind = interruption_kind;
    manual_retry_required = manual;
  })
