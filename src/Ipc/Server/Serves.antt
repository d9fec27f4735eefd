-- ===== src/Ipc/Server/Serves.antt =====
-- A request from the client through the server to the engine, and its answer back.
use devlegate.Prelude.{ℕ, ◌≡◌, refl, ap, ◌∙◌, String, true, false, Option, none, List, ◌++◌, ok}
use devlegate.Values.{Fields, obj, str}
use devlegate.Ipc.Errors.{ProtocolError}
use devlegate.Ipc.Json.{Json, IsJson, sorted_fields}
use devlegate.Ipc.Frame.{Stream, send_frame}
use devlegate.Ipc.Frame.Receive.{flat, IsBlocking}
use devlegate.Ipc.Frame.Send.{send_frame-eq-ok, send_frame-receive_frame}
use devlegate.Ipc.Message.{
  IpcRequest, protocol_version, parse_request, encode_request, encode_success_response,
}
use devlegate.Ipc.Message.Requests.{encode_request-parse_request}
use devlegate.Ipc.Calls.{Engine, Process}
use devlegate.Ipc.Dispatch.{dispatch_request}
use devlegate.Ipc.Server.{
  Round, next, answer_result, answer, deliver, serve_received, serve_round, reply,
}
use devlegate.Client.Request.{Sent, connected, request_once}
use devlegate.Client.Answers.{request_once-Answered}

-- The request that the server is to read.
abbrev pub request_of : Sent → IpcRequest
request_of q = record {
  version = protocol_version;
  request_id = q.request_id;
  method = q.method;
  payload = sorted_fields q.payload;
}

module _ {S : Type 0} (json : Json) (told : ProtocolError → String) (process : Process)
    (engine : Engine S) where
  -- The client writes its whole request, at the head of what the server is to read; the server reads
  -- and admits it; the engine returns a result; and the whole response goes out.
  pub record Delivered (q : Sent) (r : Round) (s : S) (input : Stream) : Type 0 where
    pub answers : List (Option ℕ)
    pub payload : List ℕ
    pub sent : List ℕ
    pub rest : List ℕ
    pub encoded : encode_request json (str q.request_id) (str q.method) (obj q.payload) ≡ ok payload
    pub written : send_frame answers payload ≡ (ok tt, sent)
    pub blocking : IsBlocking input
    pub arrives : flat input ≡ sent ++ rest
    pub running : r.stopped ≡ false
    pub readable : r.unreadable ≡ none
    pub admitted : r.admits ≡ true
    pub result : Fields
    pub returned : (dispatch_request process engine (request_of q) s).0 ≡ ok result
    pub response : List ℕ
    pub responded : encode_success_response json (str q.request_id) (obj result) ≡ ok response
    pub back : List ℕ
    pub replied : send_frame r.writes response ≡ (ok tt, back)

  parsed :
      ⦃law : IsJson json⦄ (q : Sent) (payload : List ℕ)
      → encode_request json (str q.request_id) (str q.method) (obj q.payload) ≡ ok payload
      → parse_request json payload ≡ ok (request_of q)
  parsed q payload h =
      let (r, fields, read, version, id, method, same, sorted) =
        encode_request-parse_request json (str q.request_id) (str q.method) (obj q.payload) payload
          h in
      let same_id : r.request_id ≡ q.request_id = cc in
      let same_method : r.method ≡ q.method = cc in
      let same_fields : fields ≡ q.payload = cc in
      read ∙ (λ i. ok (record {
        version = version i;
        request_id = same_id i;
        method = same_method i;
        payload = (sorted ∙ ap sorted_fields same_fields) i;
      }))

  answered :
      ⦃law : IsJson json⦄ (q : Sent) (r : Round) (s : S) (input : Stream)
      (d : Delivered q r s input)
      → answer json told process engine r.stops d.payload s
        ≡ (reply d.response false, (dispatch_request process engine (request_of q) s).1)
  unfolding answer answer_result
  answered q r s input d =
      rw (answer, parsed q d.payload d.encoded, d.returned, answer_result, d.responded) refl

  -- A request that the client writes whole, that the server reads and admits, that the engine answers
  -- with a result, and whose response goes out whole: the engine was asked for exactly this request, the
  -- server reads on behind it, and the client returns the result; the payload and the result with their
  -- keys in order, and however the bytes were cut on the way there and back.
  pub serve_round-Delivered :
      ⦃law : IsJson json⦄ (q : Sent) (r : Round) (s : S) (input : Stream)
      (d : Delivered q r s input) (back : Stream) (more : List ℕ)
      → IsBlocking back
      → flat back ≡ d.back ++ more
      → (after : Stream) × (flat after ≡ d.rest)
        × (serve_round json told process engine r s input
            ≡ next (dispatch_request process engine (request_of q) s).1 after d.back)
        × (request_once json q (connected d.answers back) ≡ ok (sorted_fields d.result))
  unfolding serve_round serve_received deliver
  serve_round-Delivered q r s input d back more b f =
      let m =
        send_frame-receive_frame d.answers d.payload d.sent d.rest input d.written d.blocking
          d.arrives in
      (
        m.after,
        m.left,
        rw
            (
              serve_round,
              d.running,
              d.readable,
              m.returned,
              serve_received,
              d.admitted,
              answered q r s input d,
              deliver,
              d.replied,
            )
            (ap (λ p. next (dispatch_request process engine (request_of q) s).1 m.after p.1)
              d.replied),
        request_once-Answered json q d.result (connected d.answers back) (record {
          answers = d.answers;
          reply = back;
          payload = d.payload;
          response = d.response;
          frame = d.back;
          rest = more;
          is_connected = refl;
          encoded = d.encoded;
          written = ap (λ p. p.0) d.written;
          responded = d.responded;
          framed = send_frame-eq-ok r.writes d.response d.back d.replied;
          blocking = b;
          arrives = f;
        }),
      )
