-- ===== src/Ipc/Message/Encoded.antt =====
-- `parse_response` reads back what the two encoders of src/devlegate/ipc_protocol.py write.
use devlegate.Prelude.{
  ℕ, ◌≡◌, inl, inr, refl, ap, String, true, false, some, none, List, ok, str_leb, same_set,
  expect-eq-ok, bind_inversion,
}
use devlegate.Values.{Value, Fields, obj, str, field, no_fields, get, keys, as_dict, as_text}
use devlegate.Ipc.Errors.{error, invalid_request}
use devlegate.Ipc.Json.{Json, IsJson, sorted_fields}
use devlegate.Ipc.Message.{
  protocol_version, require_text, parse_response, response_as_dict, encode_success_response,
  encode_error_response,
}
use devlegate.Ipc.Message.Items.{encode_json-loads, require_text-eq-ok}
use devlegate.Values.Reads.{as_dict-eq-some, as_text-eq-some}
use devlegate.Ipc.Message.Responses.{DecodesTo-parse_response}

module _ (json : Json) where
  -- Where `encode_success_response` accepts an id and a result, they are a text and a dict, and
  -- `parse_response` returns from the bytes a success with that id and that dict in the order of its
  -- keys.
  pub encode_success_response-parse :
      ⦃law : IsJson json⦄ (i v : Value) (bs : List ℕ)
      → encode_success_response json i v ≡ ok bs
      → (id : String) × (fields : Fields) × (i ≡ str id)
        × (v ≡ obj fields)
        × (parse_response json bs
            ≡ ok (record {
              version = protocol_version;
              request_id = id;
              ok = true;
              result = some (sorted_fields fields);
              error = none;
            }))
  unfolding encode_success_response response_as_dict sorted_fields same_set get str_leb keys
  encode_success_response-parse i v bs h =
      let (id, id_text, h₁) = bind_inversion (require_text i) _ h in
      let (fields, dict, h₂) = expect-eq-ok (as_dict v) (error invalid_request) _ h₁ in
      (
        id,
        fields,
        (require_text-eq-ok i id id_text).0,
        as_dict-eq-some v fields dict,
        DecodesTo-parse_response json bs _ (
          _,
          encode_json-loads json _ bs h₂,
          record {
            common = refl;
            current = refl;
            version = refl;
            request_id = refl;
            success = refl;
            shape = inl (refl, refl, refl, (sorted_fields fields, refl, refl));
          },
        ),
      )

  -- Where `encode_error_response` accepts an id, a code and a message, they are three texts, and
  -- `parse_response` returns from the bytes an error with that id, that code and that message.
  pub encode_error_response-parse :
      ⦃law : IsJson json⦄ (i c m : Value) (bs : List ℕ)
      → encode_error_response json i c m ≡ ok bs
      → (id : String) × (code : String) × (message : String) × (i ≡ str id)
        × (c ≡ str code)
        × (m ≡ str message)
        × (parse_response json bs
            ≡ ok (record {
              version = protocol_version;
              request_id = id;
              ok = false;
              result = none;
              error = some (field "code" c (field "message" m no_fields));
            }))
  unfolding encode_error_response response_as_dict sorted_fields same_set get str_leb keys
  encode_error_response-parse i c m bs h =
      let (id, id_text, h₁) = expect-eq-ok (as_text i) (error invalid_request) _ h in
      let (code, code_text, h₂) = bind_inversion (require_text c) _ h₁ in
      let (message, message_text, h₃) = bind_inversion (require_text m) _ h₂ in
      let (c_str, c_filled) = require_text-eq-ok c code code_text in
      let (m_str, m_filled) = require_text-eq-ok m message message_text in
      (
        id,
        code,
        message,
        as_text-eq-some i id id_text,
        c_str,
        m_str,
        DecodesTo-parse_response json bs _ (
          _,
          encode_json-loads json _ bs h₃,
          record {
            common = refl;
            current = refl;
            version = refl;
            request_id = refl;
            success = refl;
            shape = inr (
              refl,
              refl,
              refl,
              (
                field "code" c (field "message" m no_fields),
                refl,
                rw (c_str, m_str) refl,
                refl,
                (code, (ap some c_str, c_filled)),
                (message, (ap some m_str, m_filled)),
              ),
            );
          },
        ),
      )
