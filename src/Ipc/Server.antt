-- ===== src/Ipc/Server.antt =====
-- `_serve_connection` of src/devlegate/ipc_server.py: the requests of one connection, one after another,
-- and the frames that answer them.
-- The messages of the protocol's errors are the parameter `told`. An `OSError` and a `DevlegateError`
-- are `other`.
pub mod Ends
pub mod Serves
mod Tests
use devlegate.Prelude.{
  ℕ, zero, suc, String, Bool, true, false, Option, none, some, List, [], ◌++◌, if◌then◌else◌,
  Result, ok, err,
}
use devlegate.Values.{Fields, obj, str}
use devlegate.Ipc.Errors.{
  Code, ProtocolError, oversized_frame, malformed_protocol, invalid_request, unsupported_version,
  unknown_method,
}
use devlegate.Ipc.Json.{Json}
use devlegate.Ipc.Frame.{Stream, Received, bytes, clean_eof, send_frame, receive_frame}
use devlegate.Ipc.Message.{parse_request, encode_success_response, encode_error_response}
use devlegate.Ipc.Calls.{Engine, Process, Raised, protocol, other}
use devlegate.Ipc.Dispatch.{dispatch_request}

abbrev pub code_text : Code → String
code_text oversized_frame = "oversized_frame"
code_text malformed_protocol = "malformed_protocol"
code_text invalid_request = "invalid_request"
code_text unsupported_version = "unsupported_version"
code_text unknown_method = "unknown_method"

-- What the system does in one round: whether the server stops before it, whether the read raises, and
-- with which message, whether `_admit_request` admits the request, whether the server stops before the
-- answer, and how many bytes each write takes.
pub record Round : Type 0 where
  pub stopped : Bool
  pub unreadable : Option String
  pub admits : Bool
  pub stops : Bool
  pub writes : List (Option ℕ)

-- What is answered: nothing, since the server stops; nothing, since an exception leaves the loop; or a
-- response, and whether it is fatal.
pub data Reply : Type 0 where
  silent raised : Reply
  reply : List ℕ → Bool → Reply

-- How a round ends: the engine, what it leaves of the stream, and what it has written.
pub data Turn (S : Type 0) : Type 0 where
  ended : S → List ℕ → Turn S
  next : S → Stream → List ℕ → Turn S

unfoldable pub deliver : {S : Type 0} → List (Option ℕ) → Reply → S → Stream → Turn S
deliver writes silent s after = ended s []
deliver writes raised s after = ended s []
deliver writes (reply response fatal) s after = elim (send_frame writes response).0 [
  | err e ↦ ended s (send_frame writes response).1
  | ok done ↦
      if fatal
      then ended s (send_frame writes response).1
      else next s after (send_frame writes response).1
]

module _ {S : Type 0} (json : Json) (told : ProtocolError → String) (process : Process)
    (engine : Engine S) where
  -- `except IPCProtocolError`
  unfoldable pub refuse : String → ProtocolError → Reply
  refuse id e = elim (encode_error_response json (str id) (str (code_text e.code)) (str (told e))) [
    | err x ↦ raised
    | ok response ↦ reply response e.fatal
  ]

  -- `except (DevlegateError, OSError)`
  unfoldable pub fail : Bool → String → String → Reply
  fail true id message = silent
  fail false id message =
      elim (encode_error_response json (str id) (str "application_error") (str message)) [
        | err x ↦ raised
        | ok response ↦ reply response true
      ]

  unfoldable pub answer_result : Bool → String → Result Raised Fields → Reply
  unfolding refuse fail
  answer_result stops id (ok result) = elim (encode_success_response json (str id) (obj result)) [
    | err e ↦ refuse id e
    | ok response ↦ reply response false
  ]
  answer_result stops id (err (protocol e)) = refuse id e
  answer_result stops id (err (other message)) = fail stops id message

  -- A payload that was admitted.
  unfoldable pub answer : Bool → List ℕ → S → Reply × S
  unfolding answer_result
  answer stops payload s = elim (parse_request json payload) [
    | err e ↦ (refuse "" e, s)
    | ok r ↦ (
      answer_result stops r.request_id (dispatch_request process engine r s).0,
      (dispatch_request process engine r s).1,
    )
  ]

  unfoldable pub serve_received : Round → S → Result ProtocolError Received → Stream → Turn S
  unfolding deliver answer
  serve_received r s (err e) after = deliver r.writes (refuse "" e) s after
  serve_received r s (ok clean_eof) after = ended s []
  serve_received r s (ok (bytes payload)) after =
      if r.admits
      then deliver r.writes (answer r.stops payload s).0 (answer r.stops payload s).1 after
      else ended s []

  -- A round; `receive_frame` always returns on a blocking stream.
  unfoldable pub serve_round : Round → S → Stream → Turn S
  unfolding serve_received
  serve_round r s input = if r.stopped then ended s [] else elim r.unreadable [
    | some message ↦ deliver r.writes (fail r.stops "" message) s input
    | none ↦ elim (receive_frame input) [
      | none ↦ ended s []
      | some (received, after) ↦ serve_received r s received after
    ]
  ]

  -- The loop: the engine that it leaves and all that was written.
  unfoldable pub serve_connection : ℕ → (ℕ → Round) → S → Stream → List ℕ → Option (S × List ℕ)
  unfolding serve_round
  serve_connection zero rounds s input out = none
  serve_connection (suc n) rounds s input out = elim (serve_round (rounds 0) s input) [
    | ended t sent ↦ some (t, out ++ sent)
    | next t after sent ↦ serve_connection n (λ i. rounds (suc i)) t after (out ++ sent)
  ]
