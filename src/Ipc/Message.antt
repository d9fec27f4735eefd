-- ===== src/Ipc/Message.antt =====
-- The requests and responses of src/devlegate/ipc_protocol.py.
-- An argument that the source tests by `isinstance` is a `Value` here. A key that the source reads
-- behind its check of the fields is read with the test that follows, under that test's error.
pub mod Items
pub mod Requests
pub mod Responses
pub mod Encoded
use devlegate.Prelude.{
  ℕ, String, Bool, true, false, not, ◌&&◌, Option, none, some, List, [], ◌∷◌, str_eq, str_leb,
  if◌then◌else◌, Result, ok, err, ◌>>=◌, ◌>>◌, require, expect, subset, same_set,
}
use devlegate.Values.{
  Value, Fields, obj, str, int, bool, null, field, no_fields, get, keys, as_dict, as_text,
  as_nonempty_text, as_int, as_bool, item_as,
}
use devlegate.Values.Int.{ℤ, pos, int_eq}
use devlegate.Ipc.Errors.{
  Code, ProtocolError, error, malformed_protocol, invalid_request, unsupported_version,
}
use devlegate.Ipc.Json.{Json}

abbrev pub protocol_version : ℤ
protocol_version = pos 1

abbrev pub request_fields : List String
request_fields = "version" ∷ "id" ∷ "method" ∷ "payload" ∷ []

abbrev pub common_fields : List String
common_fields = "version" ∷ "id" ∷ "ok" ∷ []

pub record IpcRequest : Type 0 where
  pub version : ℤ
  pub request_id : String
  pub method : String
  pub payload : Fields

pub record IpcResponse : Type 0 where
  pub version : ℤ
  pub request_id : String
  pub ok : Bool
  pub result : Option Fields
  pub error : Option Fields

-- A dict, or None.
abbrev pub dict_or_null : Option Fields → Value
dict_or_null none = null
dict_or_null (some fs) = obj fs

unfoldable pub response_as_dict : IpcResponse → Fields
response_as_dict r = field "version" (int r.version) (
    field "id" (str r.request_id) (
      field "ok" (bool r.ok) (
        if r.ok
        then field "result" (dict_or_null r.result) no_fields
        else field "error" (dict_or_null r.error) no_fields)))

-- `_require_text`, with the text
unfoldable pub require_text : Value → Result ProtocolError String
unfolding as_nonempty_text
require_text v = expect (as_nonempty_text v) (error invalid_request)

module _ (json : Json) where
  unfoldable pub decode_json : List ℕ → Result ProtocolError Value
  decode_json payload = expect (json.loads payload) (error malformed_protocol)

  unfoldable pub encode_json : Fields → Result ProtocolError (List ℕ)
  encode_json fs = expect (json.dumps (obj fs)) (error invalid_request)

  unfoldable pub parse_request : List ℕ → Result ProtocolError IpcRequest
  unfolding decode_json
  parse_request payload = do
    value ← decode_json payload
    fields ← expect (as_dict value) (error invalid_request)
    require (same_set (keys fields) request_fields) (error invalid_request)
    version ← expect (item_as as_int "version" fields) (error invalid_request)
    require (int_eq version protocol_version) (error unsupported_version)
    request_id ← expect (item_as as_nonempty_text "id" fields) (error invalid_request)
    method ← expect (item_as as_nonempty_text "method" fields) (error invalid_request)
    request_payload ← expect (item_as as_dict "payload" fields) (error invalid_request)
    ok (record {
      version = version;
      request_id = request_id;
      method = method;
      payload = request_payload;
    })

  unfoldable pub encode_request : Value → Value → Value → Result ProtocolError (List ℕ)
  unfolding require_text encode_json
  encode_request request_id method payload = do
    i ← require_text request_id
    m ← require_text method
    fields ← expect (as_dict payload) (error invalid_request)
    encode_json (
        field "version" (int protocol_version)
          (field "id" (str i) (field "method" (str m) (field "payload" (obj fields) no_fields))))

  -- The branch of `parse_response` for a success.
  unfoldable pub parse_success : ℤ → String → Fields → Result ProtocolError IpcResponse
  parse_success version request_id fields = do
    require (same_set (keys fields) ("version" ∷ "id" ∷ "ok" ∷ "result" ∷ []))
        (error malformed_protocol)
    result ← expect (item_as as_dict "result" fields) (error malformed_protocol)
    ok (record {
      version = version;
      request_id = request_id;
      ok = true;
      result = some result;
      error = none;
    })

  -- The branch of `parse_response` for an error.
  unfoldable pub parse_error : ℤ → String → Fields → Result ProtocolError IpcResponse
  parse_error version request_id fields = do
    require (same_set (keys fields) ("version" ∷ "id" ∷ "ok" ∷ "error" ∷ []))
        (error malformed_protocol)
    details ← expect (item_as as_dict "error" fields) (error malformed_protocol)
    require (same_set (keys details) ("code" ∷ "message" ∷ [])) (error malformed_protocol)
    code ← expect (item_as as_nonempty_text "code" details) (error malformed_protocol)
    message ← expect (item_as as_nonempty_text "message" details) (error malformed_protocol)
    ok (record {
      version = version;
      request_id = request_id;
      ok = false;
      result = none;
      error = some details;
    })

  unfoldable pub parse_response : List ℕ → Result ProtocolError IpcResponse
  unfolding decode_json
  parse_response payload = do
    value ← decode_json payload
    fields ← expect (as_dict value) (error malformed_protocol)
    require (subset common_fields (keys fields)) (error malformed_protocol)
    version ← expect (item_as as_int "version" fields) (error malformed_protocol)
    require (int_eq version protocol_version) (error unsupported_version)
    request_id ← expect (item_as as_text "id" fields) (error malformed_protocol)
    success ← expect (item_as as_bool "ok" fields) (error malformed_protocol)
    if success
        then parse_success version request_id fields
        else parse_error version request_id fields

  unfoldable pub encode_success_response : Value → Value → Result ProtocolError (List ℕ)
  unfolding require_text encode_json response_as_dict
  encode_success_response request_id result = do
    i ← require_text request_id
    fields ← expect (as_dict result) (error invalid_request)
    encode_json (
        response_as_dict (record {
          version = protocol_version;
          request_id = i;
          ok = true;
          result = some fields;
          error = none;
        }))

  unfoldable pub encode_error_response : Value → Value → Value → Result ProtocolError (List ℕ)
  unfolding require_text encode_json response_as_dict
  encode_error_response request_id code message = do
    i ← expect (as_text request_id) (error invalid_request)
    c ← require_text code
    m ← require_text message
    encode_json (
        response_as_dict (record {
          version = protocol_version;
          request_id = i;
          ok = false;
          result = none;
          error = some (field "code" (str c) (field "message" (str m) no_fields));
        }))
