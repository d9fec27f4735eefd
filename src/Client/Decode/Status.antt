-- ===== src/Client/Decode/Status.antt =====
-- The decoder of src/devlegate/ipc_client.py for a status.
use devlegate.Prelude.{String, Option, none, some, List, [], ◌∷◌, str_eq, same_set}
use devlegate.Values.{
  Value, Fields, null, no_fields, get, keys, as_dict, as_text, as_bool, as_int, item_as,
  nullable_text, nullable_item,
}
use devlegate.Views.{ExecutionPlan, Count, Integration, StatusSnapshot}
use devlegate.Client.Decode.{
  ◌>>=◌, check, nullable, optional, decode_list, decode_observation, decode_plan, decode_titled,
  decode_blocked, decode_failure,
}

abbrev pub expected_states : List String
expected_states = "backlog" ∷ "todo" ∷ "review" ∷ "accepted" ∷ "done" ∷ []

-- The loop of `_counts`.
unfoldable pub decode_numbers : Fields → List String → Option (List Count)
unfolding as_int item_as
decode_numbers mapping [] = some []
decode_numbers mapping (key ∷ ks) =
    let rest = decode_numbers mapping ks in
    do
      number ← item_as as_int key mapping
      counts ← rest
      some (record { state = key; number = number } ∷ counts)

unfoldable pub decode_counts : Value → Option (List Count)
unfolding as_dict same_set decode_numbers
decode_counts value = do
  mapping ← as_dict value
  exact ← check (same_set (keys mapping) expected_states)
  decode_numbers mapping expected_states

-- `_lifecycle_integration`
unfoldable pub decode_integration : Value → Option Integration
unfolding as_dict as_text item_as
decode_integration value = do
  mapping ← as_dict value
  state ← item_as as_text "state" mapping
  current ← check (str_eq state "in-progress")
  ticket_id ← item_as as_text "ticket_id" mapping
  some (record { ticket_id = ticket_id; state = state })

unfoldable pub decode_lifecycle : Option Value → Option (Option Integration)
unfolding as_dict optional decode_integration
decode_lifecycle none = some none
decode_lifecycle (some null) = some none
decode_lifecycle (some v) = do
  lifecycle ← as_dict v
  optional decode_integration "integration" lifecycle

-- `decode_plan(value["plan"] if isinstance(value["plan"], dict) else {})`
unfoldable pub decode_plan_item : Value → Option ExecutionPlan
unfolding as_dict decode_plan
decode_plan_item v = elim (as_dict v) [ none ↦ decode_plan no_fields | some fs ↦ decode_plan fs ]

unfoldable pub decode_status : Fields → Option StatusSnapshot
unfolding as_dict as_text as_bool item_as nullable_text nullable_item nullable optional decode_list
    decode_observation decode_titled decode_blocked decode_failure decode_counts decode_plan_item
    decode_lifecycle
decode_status value = do
  execution ← item_as as_dict "execution" value
  observation ← item_as as_dict "observation" value
  tickets ← item_as as_dict "tickets" value
  blocked ← item_as (decode_list decode_blocked) "blocked" tickets
  phase ← item_as as_text "phase" execution
  bound_ticket_id ← item_as nullable_text "bound_ticket" execution
  persisted ← item_as as_bool "persisted_body" execution
  code ← item_as decode_observation "code" observation
  control ← optional decode_observation "control" observation
  counts ← item_as decode_counts "counts" tickets
  eligible ← item_as (decode_list decode_titled) "eligible" tickets
  review ← item_as (decode_list decode_titled) "review" tickets
  accepted ← item_as (decode_list decode_titled) "accepted" tickets
  next_ticket ← item_as (nullable decode_titled) "next" tickets
  plan ← item_as decode_plan_item "plan" value
  failed ← item_as (decode_list decode_failure) "failed_executions" value
  reconciliation ← optional as_dict "reconciliation" value
  stage ← nullable_item "stage" execution
  execution_id ← nullable_item "execution_id" execution
  title ← nullable_item "ticket_title" execution
  integration ← decode_lifecycle (get "lifecycle" value)
  some (record {
    phase = phase;
    bound_ticket_id = bound_ticket_id;
    persisted_body_present = persisted;
    code = code;
    control = control;
    counts = counts;
    runnable = [];
    blocked = blocked;
    review = review;
    accepted = accepted;
    next_ticket = next_ticket;
    plan = plan;
    failed_executions = failed;
    reconciliation = reconciliation;
    execution_stage = stage;
    execution_id = execution_id;
    bound_ticket_title = title;
    lifecycle_integration = integration;
    eligible = eligible;
  })
