-- ===== src/Client/Answers.antt =====
-- A request of the client that its connection answers: the client, the frames and the messages together.
use devlegate.Prelude.{
  ◌≡◌, ◌∙◌, ap, refl, ℕ, String, true, Option, none, some, List, ◌++◌, eq_refl, ok,
}
use devlegate.Values.{Fields, obj, str}
use devlegate.Ipc.Json.{Json, IsJson, sorted_fields}
use devlegate.Ipc.Frame.{Stream, encode_frame, send_frame}
use devlegate.Ipc.Frame.Receive.{flat, IsBlocking}
use devlegate.Ipc.Message.{
  IpcResponse, encode_request, parse_response, encode_success_response, protocol_version,
}
use devlegate.Client.Request.{Connection, connected, Sent, conclude, exchange, request_once}
use devlegate.Ipc.Message.Encoded.{encode_success_response-parse}
use devlegate.Ipc.Frame.Encoded.{receive_frame-encode_frame}

module _ (json : Json) (q : Sent) where
  -- The connection takes the whole request, and its peer sends the success of `result` under the id
  -- of the request, in any pieces.
  pub record Answered (result : Fields) (c : Connection) : Type 0 where
    pub answers : List (Option ℕ)
    pub reply : Stream
    pub payload : List ℕ
    pub response : List ℕ
    pub frame : List ℕ
    pub rest : List ℕ
    pub is_connected : c ≡ connected answers reply
    pub encoded : encode_request json (str q.request_id) (str q.method) (obj q.payload) ≡ ok payload
    pub written : (send_frame answers payload).0 ≡ ok tt
    pub responded : encode_success_response json (str q.request_id) (obj result) ≡ ok response
    pub framed : encode_frame response ≡ ok frame
    pub blocking : IsBlocking reply
    pub arrives : flat reply ≡ frame ++ rest

  abbrev success : String → Fields → IpcResponse
  success id result = record {
    version = protocol_version;
    request_id = id;
    ok = true;
    result = some result;
    error = none;
  }

  parsed :
      ⦃law : IsJson json⦄ (id : String) (result : Fields) (response : List ℕ)
      → encode_success_response json (str id) (obj result) ≡ ok response
      → parse_response json response ≡ ok (success id (sorted_fields result))
  parsed id result response h =
      let (id', fields, same_id, same_fields, e) =
        encode_success_response-parse json (str id) (obj result) response h in
      e ∙ ap (λ x. ok x) (both id id' result fields same_id same_fields)
    where
      both :
          (id id' : String) (result fields : Fields)
          → str id ≡ str id'
          → obj result ≡ obj fields
          → success id' (sorted_fields fields) ≡ success id (sorted_fields result)
      both id id' result fields h k =
          let same : id' ≡ id = cc in
          let same_fields : fields ≡ result = cc in rw (same, same_fields) refl

  exchanged :
      (result : Fields) (c : Connection) (a : Answered result c)
      → exchange json q a.answers a.reply ≡ some a.response
  unfolding exchange
  exchanged result c a =
      let r =
        receive_frame-encode_frame a.response a.frame a.rest a.reply a.framed a.blocking
          a.arrives in
      rw (exchange, a.encoded, a.written, r.returned) refl

  concluded : (result : Fields) → conclude q (success q.request_id result) ≡ ok result
  unfolding conclude
  concluded result = rw (eq_refl q.request_id) refl

  -- A request whose connection takes it and answers it with a success under its id returns the result,
  -- in the order of its keys, however the bytes were cut on either side.
  pub request_once-Answered :
      ⦃law : IsJson json⦄ (result : Fields) (c : Connection)
      → Answered result c
      → request_once json q c ≡ ok (sorted_fields result)
  unfolding request_once
  request_once-Answered result c a =
      ap (request_once json q) a.is_connected
      ∙ rw (request_once, exchanged result c a, parsed q.request_id result a.response a.responded)
          (concluded (sorted_fields result))
