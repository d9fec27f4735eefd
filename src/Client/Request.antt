-- ===== src/Client/Request.antt =====
-- `request` and `_request_once` of src/devlegate/ipc_client.py, over the connections that the socket
-- makes. The messages of an error are left out.
use devlegate.Prelude.{
  ℕ, String, Bool, true, false, not, Option, none, some, List, str_eq, if◌then◌else◌, Result, ok,
  err,
}
use devlegate.Values.{Fields, obj, str, no_fields, as_text, item_as}
use devlegate.Ipc.Errors.{ProtocolError}
use devlegate.Ipc.Json.{Json}
use devlegate.Ipc.Frame.{Stream, Received, bytes, clean_eof, send_frame, receive_frame}
use devlegate.Ipc.Message.{IpcResponse, encode_request, parse_response}

pub record ClientError : Type 0 where
  pub application : Bool
  pub uncertain : Bool
  pub code : Option String

abbrev pub unavailable : ClientError
unavailable = record { application = false; uncertain = false; code = none }

abbrev pub uncertain_outcome : ClientError
uncertain_outcome = record { application = false; uncertain = true; code = none }

-- What `connect` leads to: an `OSError`; a connection that raises one later; or one whose writes take
-- these numbers of bytes and whose peer sends this stream.
pub data Connection : Type 0 where
  refused : Connection
  broken : Connection
  connected : List (Option ℕ) → Stream → Connection

-- A request without its deliveries.
pub record Sent : Type 0 where
  pub request_id : String
  pub method : String
  pub payload : Fields
  pub mutable_request : Bool

-- `raise IPCClientError(_uncertain_message(method), uncertain=True)` where the request is mutable, and
-- the plain error elsewhere
abbrev pub lost : Bool → ClientError
lost m = if m then uncertain_outcome else unavailable

abbrev or_empty : Option Fields → Fields
or_empty none = no_fields
or_empty (some fs) = fs

abbrev pub refusal : Option Fields → ClientError
refusal details = record {
  application = true;
  uncertain = false;
  code = item_as as_text "code" (or_empty details);
}

-- What `_request_once` does with a response.
unfoldable pub conclude : Sent → IpcResponse → Result ClientError Fields
unfolding item_as as_text
conclude q r =
    if not (str_eq r.request_id q.request_id)
    then err (lost q.mutable_request)
    else if not r.ok
    then err (refusal r.error)
    else elim r.result [ none ↦ err (lost q.mutable_request) | some fs ↦ ok fs ]

-- The payload that `receive_frame` returned; it never runs out of its rounds.
abbrev received : Option (Result ProtocolError Received × Stream) → Option (List ℕ)
received none = none
received (some (err e, after)) = none
received (some (ok clean_eof, after)) = none
received (some (ok (bytes payload), after)) = some payload

module _ (json : Json) where
  -- The bytes that come back, and nothing where an exception or the end of the stream comes first.
  unfoldable pub exchange : Sent → List (Option ℕ) → Stream → Option (List ℕ)
  unfolding encode_request
  exchange q answers reply =
      elim (encode_request json (str q.request_id) (str q.method) (obj q.payload)) [
        | err e ↦ none
        | ok payload ↦ elim (send_frame answers payload).0 [
          | err e ↦ none
          | ok done ↦ received (receive_frame reply)
        ]
      ]

  unfoldable pub request_once : Sent → Connection → Result ClientError Fields
  unfolding exchange conclude
  request_once q refused = err unavailable
  request_once q broken = err (lost q.mutable_request)
  request_once q (connected answers reply) = elim (exchange q answers reply) [
    | none ↦ err (lost q.mutable_request)
    | some payload ↦ elim (parse_response json payload) [
      | err e ↦ err (lost q.mutable_request)
      | ok response ↦ conclude q response
    ]
  ]

  -- The last attempt of a mutable request.
  unfoldable pub request_again : Sent → Connection → Result ClientError Fields
  unfolding request_once
  request_again q c = elim (request_once q c) [
    | ok fs ↦ ok fs
    | err e ↦ if e.application then err e else err uncertain_outcome
  ]

  -- `request`: `first` and `second` are what its connections come to.
  unfoldable pub request : Sent → Connection → Connection → Result ClientError Fields
  unfolding request_once request_again
  request q first second =
      let again = request_again q second in
      elim (request_once q first) [
        | ok fs ↦ ok fs
        | err e ↦ if q.mutable_request then (if e.uncertain then again else err e) else err e
      ]
