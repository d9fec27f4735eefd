-- ===== src/Client/Tests.antt =====
-- The theorems on the client at small inputs.
use devlegate.Prelude.{
  ◌≡◌, refl, ◌⊎◌, inl, inr, String, Bool, true, false, Option, none, some, [], ◌∷◌, ok, err, arith,
  In,
}
use devlegate.Values.{Value, Fields, obj, str, int, bool, field, no_fields}
use devlegate.Values.Int.{pos}
use devlegate.Views.{
  GitObservation, ExecutionPlan, Blocked, Integration, StatusSnapshot, status_as_dict,
}
use devlegate.Service.Commands.{operator_ack}
use devlegate.Ipc.Frame.{encode_frame, send_frame, send_loop}
use devlegate.Ipc.Json.{Json, sorted_fields}
use devlegate.Ipc.Known.{known_two, known_two-IsJson}
use devlegate.Ipc.Message.{encode_request, encode_success_response}
use devlegate.Client.Items.{IsReason, IsPlan}
use devlegate.Client.RoundTrip.{IsSnapshot, five, decode_status-as_dict}
use devlegate.Client.Request.{
  Connection, refused, broken, connected, Sent, unavailable, request_once, request_again, request,
}
use devlegate.Client.Answers.{Answered, request_once-Answered}
use devlegate.Client.Delivery.{Failed, Decides, request-Failed, request-Recovers}
use devlegate.Client.Acks.{
  retry_ack, drop_ack, reconcile_ack, resume_ack, control_ack, recover_ack, auto_ack,
}
use devlegate.Client.Acks.Laws.{IsTarget, operator_ack-Accepted}
use devlegate.Client.Decode.Status.{decode_status}

abbrev main_branch : GitObservation
main_branch = record {
  branch = some "main";
  detached = false;
  local_head = "a";
  remote_ref = "origin/main";
  remote_head = none;
  working_tree_clean = true;
  working_tree_fingerprint = "f";
}

abbrev waiting : Blocked
waiting = record {
  id = "b";
  title = "B";
  reason = record {
    kind = "dependencies";
    ticket_id = none;
    tickets = record { id = "a"; state = "todo" } ∷ [];
  };
}

abbrev plan : ExecutionPlan
plan = record {
  action = "run-worker";
  reason = "r";
  ticket_id = some "a";
  ticket_title = some "A";
  ticket_state = some "todo";
  bound = false;
  code = some main_branch;
  control = none;
}

abbrev snapshot : StatusSnapshot
snapshot = record {
  phase = "idle";
  bound_ticket_id = none;
  persisted_body_present = false;
  code = main_branch;
  control = none;
  counts = five (pos 0) (pos 2) (pos 0) (pos 0) (pos 0);
  runnable = record { id = "a"; title = "A" } ∷ [];
  blocked = waiting ∷ [];
  review = [];
  accepted = [];
  next_ticket = some (record { id = "a"; title = "A" });
  plan = plan;
  failed_executions = [];
  reconciliation = none;
  execution_stage = none;
  execution_id = none;
  bound_ticket_title = none;
  lifecycle_integration = some (record { ticket_id = "c"; state = "in-progress" });
  eligible = record { id = "a"; title = "A" } ∷ [];
}

waiting-IsReason : IsReason waiting.reason
waiting-IsReason = record { of_dependencies = λ _. refl; of_others = λ h. cc }

plan-IsPlan : IsPlan plan
plan-IsPlan = record { title = λ h. cc; state = λ h. cc }

in_progress : (i : Integration) → snapshot.lifecycle_integration ≡ some i → i.state ≡ "in-progress"
in_progress i h =
    let same : i ≡ record { ticket_id = "c"; state = "in-progress" } = cc in rw same refl

snapshot-IsSnapshot : IsSnapshot snapshot
snapshot-IsSnapshot = record {
  counted = (pos 0, pos 2, pos 0, pos 0, pos 0, refl);
  unbound_stage = λ _. refl;
  unbound_execution = λ _. refl;
  reasons = only_waiting;
  planned = plan-IsPlan;
  integrating = in_progress;
}
  where
    only_waiting : (b : Blocked) → In b snapshot.blocked → IsReason b.reason
    only_waiting b (inl e) = rw e waiting-IsReason
    only_waiting b (inr m) = absurd m

decode_status-as_dict_example :
    decode_status (status_as_dict snapshot) ≡ some (record snapshot { runnable = [] })
decode_status-as_dict_example = decode_status-as_dict snapshot snapshot-IsSnapshot

abbrev retry : Sent
retry = record {
  request_id = "1";
  method = "retry";
  payload = field "ticket_id" (str "a") no_fields;
  mutable_request = true;
}

abbrev retried : Fields
retried = field "accepted" (bool true) (field "ticket_id" (str "a") no_fields)

abbrev asked : Value
asked = obj (
    field "version" (int (pos 1)) (
      field "id" (str "1") (
        field "method" (str "retry")
          (field "payload" (obj (field "ticket_id" (str "a") no_fields)) no_fields))))

abbrev answered : Value
answered = obj (
    field "version" (int (pos 1))
      (field "id" (str "1") (field "ok" (bool true) (field "result" (obj retried) no_fields))))

abbrev json : Json
json = known_two asked answered

abbrev answering : Connection
answering = connected (some 4 ∷ []) ((0 ∷ 0 ∷ 0 ∷ []) ∷ (1 ∷ 1 ∷ []) ∷ [])

answering-Answered : Answered json retry retried answering
unfolding encode_request encode_success_response known_two encode_frame send_frame send_loop
answering-Answered = record {
  answers = some 4 ∷ [];
  reply = (0 ∷ 0 ∷ 0 ∷ []) ∷ (1 ∷ 1 ∷ []) ∷ [];
  payload = [];
  response = 1 ∷ [];
  frame = 0 ∷ 0 ∷ 0 ∷ 1 ∷ 1 ∷ [];
  rest = [];
  is_connected = refl;
  encoded = refl;
  written = refl;
  responded = refl;
  framed = refl;
  blocking = (omega arith, (omega arith, tt));
  arrives = refl;
}

request_once-Answered_example : request_once json retry answering ≡ ok (sorted_fields retried)
request_once-Answered_example =
    request_once-Answered json retry ⦃law = known_two-IsJson asked answered⦄ retried answering
      answering-Answered

refused_run : request json retry refused broken ≡ err unavailable
unfolding request request_once request_again
refused_run = refl

request-Failed_example : Failed json retry refused unavailable
request-Failed_example = request-Failed json retry refused broken unavailable refl refused_run

broken-ne-refused : ¬ (broken ≡ refused)
broken-ne-refused h = cc

request-Recovers_example :
    (request json retry broken answering ≡ ok (sorted_fields retried))
    ⊎ ((request json retry broken answering ≡ request_once json retry broken)
        × Decides json retry broken)
request-Recovers_example =
    request-Recovers json retry ⦃law = known_two-IsJson asked answered⦄ broken answering retried
      refl broken-ne-refused answering-Answered

abbrev no_float : String → Bool
no_float s = false

operator_ack-Accepted_example :
    (operator_ack "retry" "a" none (some "x") none ≡ ok retried
      → retry_ack (sorted_fields retried) "a" ≡ true)
    × (operator_ack "drop" "a" none (some "x") none ≡ ok retried
        → (x : String) × (some "x" ≡ some x) × (drop_ack (sorted_fields retried) "a" x ≡ true))
    × (operator_ack "reconcile-update-base" "a" none (some "x") none ≡ ok retried
        → (to : String) × (◌≡◌ {A = Option String} none (some to))
          × (reconcile_ack (sorted_fields retried) "a" to ≡ true))
    × (operator_ack "reconcile-resume" "a" none (some "x") none ≡ ok retried
        → resume_ack no_float (sorted_fields retried) "a" ≡ true)
    × (operator_ack "reconcile-control" "a" none (some "x") none ≡ ok retried
        → (to : String) × (◌≡◌ {A = Option String} none (some to))
          × (control_ack no_float (sorted_fields retried) "a" to ≡ true))
    × (operator_ack "recover" "a" none (some "x") none ≡ ok retried
        → (x : String) × (head : String) × (some "x" ≡ some x)
          × (◌≡◌ {A = Option String} none (some head))
          × (recover_ack (sorted_fields retried) "a" x head ≡ true))
    × (operator_ack "reconcile-auto" "a" none (some "x") none ≡ ok retried
        → IsTarget none
        → auto_ack (sorted_fields retried) "a" ≡ true)
operator_ack-Accepted_example = operator_ack-Accepted no_float "a" none (some "x") none retried
