-- ===== src/Ipc/Server/Tests.antt =====
-- The loop of a connection at a small input.
use devlegate.Prelude.{
  ℕ, suc, ◌≡◌, refl, ap, String, true, false, Option, none, some, List, [], ◌∷◌, ◌++◌, ok, arith,
}
use devlegate.Values.{
  Value, Fields, obj, str, int, bool, field, no_fields, no_items, keys, item_as, as_nonempty_text,
}
use devlegate.Values.Int.{pos}
use devlegate.Ipc.Errors.{ProtocolError}
use devlegate.Ipc.Json.{Json, sorted_fields}
use devlegate.Ipc.Known.{known_two, known_two-IsJson}
use devlegate.Ipc.Frame.{Stream, encode_frame, send_frame, send_loop}
use devlegate.Ipc.Frame.Receive.{flat}
use devlegate.Ipc.Message.{encode_request, encode_success_response}
use devlegate.Ipc.Calls.{Engine, Process, Operation}
use devlegate.Ipc.Dispatch.{
  dispatch_request, dispatch_mutation, or_read_only, check_mutation, check_resume, perform,
}
use devlegate.Ipc.Server.{Round, next, serve_round, serve_connection}
use devlegate.Ipc.Server.Ends.{serve_connection-Ends}
use devlegate.Ipc.Server.Serves.{request_of, Delivered, serve_round-Delivered}
use devlegate.Client.Request.{Sent, connected, request_once}

-- An engine that counts what it is asked.
abbrev counted : Operation ℕ
counted n = (ok (field "accepted" (bool true) no_fields), suc n)

abbrev engine : Engine ℕ
engine = record {
  lifecycle = none;
  retry = λ t force id. counted;
  drop = λ t x id. counted;
  recover = λ t x head id. counted;
  reconcile_update_base = λ t onto rewrite id. counted;
  reconcile_resume = λ t id. counted;
  reconcile_auto = λ t onto id. counted;
  reconcile_control = λ a b id. counted;
  published_status_payload = λ n. ok no_fields;
  published_plan = λ n. ok no_fields;
  published_retry_candidates = λ n. ok no_items;
  published_drop_candidates = λ n. ok no_items;
  lifecycle_status_payload = none;
}

abbrev process : Process
process = record { version = "1"; pid = 7; instance_id = "x" }

abbrev resume : Sent
resume = record {
  request_id = "1";
  method = "reconcile-resume";
  payload = field "ticket_id" (str "a") no_fields;
  mutable_request = true;
}

abbrev resumed : Fields
resumed = field "accepted" (bool true) no_fields

abbrev asked : Value
asked = obj (
    field "version" (int (pos 1)) (
      field "id" (str "1") (
        field "method" (str "reconcile-resume")
          (field "payload" (obj (field "ticket_id" (str "a") no_fields)) no_fields))))

abbrev answered : Value
answered = obj (
    field "version" (int (pos 1))
      (field "id" (str "1") (field "ok" (bool true) (field "result" (obj resumed) no_fields))))

abbrev json : Json
json = known_two asked answered

abbrev told : ProtocolError → String
told e = "error"

abbrev quiet : Round
quiet = record {
  stopped = false;
  unreadable = none;
  admits = true;
  stops = false;
  writes = some 2 ∷ some 3 ∷ [];
}

-- The frame of the request, and the first byte of the next.
abbrev input : Stream
input = (0 ∷ 0 ∷ []) ∷ (0 ∷ 0 ∷ 9 ∷ []) ∷ []

dispatched : dispatch_request process engine (request_of resume) 0 ≡ (ok resumed, 1)
unfolding dispatch_request dispatch_mutation or_read_only check_mutation check_resume perform keys
    sorted_fields item_as as_nonempty_text
dispatched = refl

abbrev taken : List (Option ℕ)
taken = some 1 ∷ some 3 ∷ []

delivery : Delivered json told process engine resume quiet 0 input
unfolding encode_request encode_success_response known_two encode_frame send_frame send_loop
delivery = record {
  answers = taken;
  payload = [];
  sent = 0 ∷ 0 ∷ 0 ∷ 0 ∷ [];
  rest = 9 ∷ [];
  encoded = refl;
  written = refl;
  blocking = (omega arith, (omega arith, tt));
  arrives = refl;
  running = refl;
  readable = refl;
  admitted = refl;
  result = resumed;
  returned = ap (λ p. p.0) dispatched;
  response = 1 ∷ [];
  responded = refl;
  back = 0 ∷ 0 ∷ 0 ∷ 1 ∷ 1 ∷ [];
  replied = refl;
}

-- The answer, in two pieces.
abbrev reply : Stream
reply = (0 ∷ 0 ∷ 0 ∷ []) ∷ (1 ∷ 1 ∷ []) ∷ []

serve_round-Delivered_example :
    (after : Stream) × (flat after ≡ (9 ∷ []))
    × (serve_round json told process engine quiet 0 input
        ≡ next
            (dispatch_request process engine (request_of resume) 0).1
            after
            (0 ∷ 0 ∷ 0 ∷ 1 ∷ 1 ∷ []))
    × (request_once json resume (connected taken reply) ≡ ok (sorted_fields resumed))
unfolding delivery
serve_round-Delivered_example =
    serve_round-Delivered json told process engine ⦃law = known_two-IsJson asked answered⦄ resume
      quiet 0 input delivery reply [] (omega arith, (omega arith, tt)) refl

serve_connection-Ends_example :
    (t : ℕ) × (sent : List ℕ) × (serve_connection json told process engine 6 (λ i. quiet) 0 input []
      ≡ some (t, [] ++ sent))
serve_connection-Ends_example =
    serve_connection-Ends json told process engine 6 (λ i. quiet) 0 input []
      (omega arith, (omega arith, tt)) (omega arith)
