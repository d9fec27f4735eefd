-- ===== src/Ipc/Tests.antt =====
-- Runs of the protocol on small inputs, and the theorems at such inputs.
use devlegate.Prelude.{
  length, ◌≤◌, ◌+◌, ℕ, suc, arith, ◌≡◌, ◌↔◌, refl, String, true, false, Option, none, some, List,
  [], ◌∷◌, ok,
}
use devlegate.Values.{Value, Fields, obj, str, int, bool, field, no_fields, no_items}
use devlegate.Values.Int.{pos}
use devlegate.Ipc.Frame.Bounds.{receive_frame-Bounded}
use devlegate.Ipc.Frame.{
  Stream, bytes, max_payload_bytes, receive_frame, receive_payload, read_exact, read_loop, unpack,
  send_loop, send_frame, encode_frame,
}
use devlegate.Ipc.Frame.Receive.{flat}
use devlegate.Ipc.Frame.Flat.{Receives, receive_flat, receive_frame-Receives}
use devlegate.Ipc.Frame.Send.{send_frame-receive_frame}
use devlegate.Ipc.Known.{known, known-IsJson}
use devlegate.Ipc.Message.{
  IpcRequest, IpcResponse, protocol_version, parse_request, encode_request, parse_response,
  encode_success_response, encode_error_response,
}
use devlegate.Ipc.Message.Requests.{Decodes, parse_request_iff}
use devlegate.Ipc.Message.Responses.{DecodesTo, parse_response_iff}
use devlegate.Ipc.Dispatch.{check_mutation}
use devlegate.Ipc.Dispatch.Asks.{check_mutation_iff}
use devlegate.Ipc.Dispatch.Handles.{Handled, dispatch_request-Handled}
use devlegate.Ipc.Calls.{Engine, Process, Operation, submit_retry}
use devlegate.Ipc.Message.Encoded.{encode_error_response-parse}
use devlegate.Ipc.Dispatch.Asked.{Asks}

-- A frame of two bytes, in three pieces, and the first byte of the next.
abbrev pieces : Stream
pieces = (0 ∷ 0 ∷ []) ∷ (0 ∷ 2 ∷ 7 ∷ []) ∷ (8 ∷ 9 ∷ []) ∷ []

abbrev answers : List (Option ℕ)
answers = some 4 ∷ some 1 ∷ some 5 ∷ []

sent_run : send_frame answers (7 ∷ 8 ∷ []) ≡ (ok tt, 0 ∷ 0 ∷ 0 ∷ 2 ∷ 7 ∷ 8 ∷ [])
unfolding send_frame encode_frame send_loop
sent_run = refl

receive_frame-Receives_example : Receives pieces (receive_flat (flat pieces))
receive_frame-Receives_example =
    receive_frame-Receives pieces (omega arith, (omega arith, (omega arith, tt)))

send_frame-receive_frame_example : Receives pieces (ok (bytes (7 ∷ 8 ∷ [])), 9 ∷ [])
send_frame-receive_frame_example =
    send_frame-receive_frame answers (7 ∷ 8 ∷ []) (0 ∷ 0 ∷ 0 ∷ 2 ∷ 7 ∷ 8 ∷ []) (9 ∷ []) pieces
      sent_run (omega arith, (omega arith, (omega arith, tt))) refl

abbrev retry_payload : Fields
retry_payload = field "ticket_id" (str "a") no_fields

abbrev message : Value
message = obj (
    field "version" (int (pos 1)) (
      field "id" (str "1")
        (field "method" (str "retry") (field "payload" (obj retry_payload) no_fields))))

abbrev request : IpcRequest
request = record { version = pos 1; request_id = "1"; method = "retry"; payload = retry_payload }

encode_run : encode_request (known message) (str "1") (str "retry") (obj retry_payload) ≡ ok []
unfolding encode_request known
encode_run = refl

parse_request_iff_example :
    (parse_request (known message) [] ≡ ok request) ↔ Decodes (known message) [] request
parse_request_iff_example = parse_request_iff (known message) [] request

abbrev success : Value
success = obj (
    field "version" (int (pos 1)) (
      field "id" (str "1") (field "ok" (bool true) (field "result" (obj retry_payload) no_fields))))

abbrev failure : Value
failure = obj (
    field "version" (int (pos 1)) (
      field "id" (str "") (
        field "ok" (bool false) (
          field "error" (obj (field "code" (str "c") (field "message" (str "m") no_fields)))
            no_fields))))

success_run : encode_success_response (known success) (str "1") (obj retry_payload) ≡ ok []
unfolding encode_success_response known
success_run = refl

failure_run : encode_error_response (known failure) (str "") (str "c") (str "m") ≡ ok []
unfolding encode_error_response known
failure_run = refl

abbrev succeeded : IpcResponse
succeeded = record {
  version = pos 1;
  request_id = "1";
  ok = true;
  result = some retry_payload;
  error = none;
}

parse_response_iff_example :
    (parse_response (known success) [] ≡ ok succeeded) ↔ DecodesTo (known success) [] succeeded
parse_response_iff_example = parse_response_iff (known success) [] succeeded

encode_error_response-parse_example :
    (id : String) × (code : String) × (message : String) × (str "" ≡ str id)
    × (str "c" ≡ str code)
    × (str "m" ≡ str message)
    × (parse_response (known failure) []
        ≡ ok (record {
          version = protocol_version;
          request_id = id;
          ok = false;
          result = none;
          error = some (field "code" (str "c") (field "message" (str "m") no_fields));
        }))
encode_error_response-parse_example =
    encode_error_response-parse (known failure) ⦃law = known-IsJson failure⦄ (str "") (str "c")
      (str "m") [] failure_run

check_mutation_iff_example :
    (check_mutation true "retry" retry_payload ≡ ok (submit_retry "a" false))
    ↔ Asks true "retry" retry_payload (submit_retry "a" false)
check_mutation_iff_example = check_mutation_iff true "retry" retry_payload (submit_retry "a" false)

-- An engine that counts the submissions.
abbrev counted : Operation ℕ
counted n = (ok (field "state" (str "pending") no_fields), suc n)

abbrev engine : Engine ℕ
engine = record {
  lifecycle = none;
  retry = λ t force id. counted;
  drop = λ t x id. counted;
  recover = λ t x head id. counted;
  reconcile_update_base = λ t onto rewrite id. counted;
  reconcile_resume = λ t id. counted;
  reconcile_auto = λ t onto id. counted;
  reconcile_control = λ a b id. counted;
  published_status_payload = λ n. ok no_fields;
  published_plan = λ n. ok no_fields;
  published_retry_candidates = λ n. ok no_items;
  published_drop_candidates = λ n. ok no_items;
  lifecycle_status_payload = none;
}

abbrev process : Process
process = record { version = "1"; pid = 7; instance_id = "x" }

dispatch_request-Handled_example : Handled process engine request 0
dispatch_request-Handled_example = dispatch_request-Handled process engine request 0

abbrev two_bytes : List ℕ
two_bytes = 7 ∷ 8 ∷ []

abbrev left : Stream
left = (9 ∷ []) ∷ []

receive_run : receive_frame pieces ≡ some (ok (bytes two_bytes), left)
unfolding receive_frame receive_payload read_exact read_loop unpack
receive_run = refl

receive_frame-Bounded_example :
    (length two_bytes ≤ max_payload_bytes)
    × (length (flat left) + (4 + length two_bytes) ≡ length (flat pieces))
receive_frame-Bounded_example =
    receive_frame-Bounded pieces left two_bytes (omega arith, (omega arith, (omega arith, tt)))
      receive_run
