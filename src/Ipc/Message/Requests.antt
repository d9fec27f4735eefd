-- ===== src/Ipc/Message/Requests.antt =====
-- What `parse_request` accepts, and that it reads back what `encode_request` writes.
use devlegate.Prelude.{
  ℕ, ◌≡◌, ◌↔◌, refl, ap, ◌∙◌, true, some, List, ok, str_leb, same_set, expect-eq-ok, require-eq-ok,
  bind_inversion, ok-injective,
}
use devlegate.Values.{Value, Fields, obj, str, int, get, keys, as_dict, as_int, as_nonempty_text}
use devlegate.Values.Int.{int_eq, int_eq_iff}
use devlegate.Ipc.Errors.{error, malformed_protocol, invalid_request, unsupported_version}
use devlegate.Ipc.Json.{Json, IsJson, sorted_fields}
use devlegate.Ipc.Message.{
  IpcRequest, protocol_version, request_fields, require_text, decode_json, parse_request,
  encode_request,
}
use devlegate.Ipc.Message.Items.{encode_json-loads, require_text-eq-ok}
use devlegate.Values.{item_as}
use devlegate.Values.Reads.{
  HasText, HasText-item_as, item_as-get, item_as-int, item_as-dict, item_as-nonempty_text,
  as_dict-eq-some,
}

-- The document of a request: exactly its four fields, the version of the protocol, texts that are not
-- empty, and a dict.
pub record IsRequest (fields : Fields) (r : IpcRequest) : Type 0 where
  pub exact : same_set (keys fields) request_fields ≡ true
  pub current : r.version ≡ protocol_version
  pub version : get "version" fields ≡ some (int r.version)
  pub request_id : HasText "id" fields r.request_id
  pub method : HasText "method" fields r.method
  pub payload : get "payload" fields ≡ some (obj r.payload)

-- The bytes decode to the document of the request.
abbrev pub Decodes : Json → List ℕ → IpcRequest → Type 0
Decodes json bs r = (fields : Fields) × (json.loads bs ≡ some (obj fields)) × IsRequest fields r

module _ (json : Json) where
  parse_request-Decodes :
      (bs : List ℕ) (r : IpcRequest) → parse_request json bs ≡ ok r → Decodes json bs r
  unfolding parse_request decode_json
  parse_request-Decodes bs r h =
      let (v, loaded, h₁) = expect-eq-ok (json.loads bs) (error malformed_protocol) _ h in
      let (fields, dict, h₂) = expect-eq-ok (as_dict v) (error invalid_request) _ h₁ in
      let (exact, h₃) =
        require-eq-ok (same_set (keys fields) request_fields) (error invalid_request) _ h₂ in
      let (n, version, h₄) =
        expect-eq-ok (item_as as_int "version" fields) (error invalid_request) _ h₃ in
      let (current, h₅) =
        require-eq-ok (int_eq n protocol_version) (error unsupported_version) _ h₄ in
      let (i, id, h₆) =
        expect-eq-ok (item_as as_nonempty_text "id" fields) (error invalid_request) _ h₅ in
      let (m, method, h₇) =
        expect-eq-ok (item_as as_nonempty_text "method" fields) (error invalid_request) _ h₆ in
      let (p, payload, h₈) =
        expect-eq-ok (item_as as_dict "payload" fields) (error invalid_request) _ h₇ in
      (
        fields,
        loaded ∙ ap some (as_dict-eq-some v fields dict),
        rw (← ok-injective h₈) (record {
          exact = exact;
          current = (int_eq_iff n protocol_version).0 current;
          version = item_as-int "version" fields n version;
          request_id = item_as-nonempty_text "id" fields i id;
          method = item_as-nonempty_text "method" fields m method;
          payload = item_as-dict "payload" fields p payload;
        }),
      )

  Decodes-parse_request :
      (bs : List ℕ) (r : IpcRequest) → Decodes json bs r → parse_request json bs ≡ ok r
  unfolding parse_request decode_json as_dict as_int
  Decodes-parse_request bs r (fields, loaded, q) =
      rw
        (
          loaded,
          q.exact,
          item_as-get as_int "version" fields (int r.version) q.version,
          q.current,
          HasText-item_as "id" fields r.request_id q.request_id,
          HasText-item_as "method" fields r.method q.method,
          item_as-get as_dict "payload" fields (obj r.payload) q.payload,
        )
        refl

  -- `parse_request` returns a request exactly where the bytes decode to a dict with the four fields of
  -- a request and no others, the version of the protocol, an id and a method that are texts and not
  -- empty, and a dict as the payload; and it returns what these fields hold.
  pub parse_request_iff :
      (bs : List ℕ) (r : IpcRequest) → (parse_request json bs ≡ ok r) ↔ Decodes json bs r
  parse_request_iff bs r = (parse_request-Decodes bs r, Decodes-parse_request bs r)

  -- Where `encode_request` accepts an id, a method and a payload, they are two texts and a dict,
  -- `parse_request` accepts the bytes, and it returns a request of the version of the protocol with
  -- that id, that method and that dict in the order of its keys.
  pub encode_request-parse_request :
      ⦃law : IsJson json⦄ (i m p : Value) (bs : List ℕ)
      → encode_request json i m p ≡ ok bs
      → (r : IpcRequest) × (fields : Fields) × (parse_request json bs ≡ ok r)
        × (r.version ≡ protocol_version)
        × (i ≡ str r.request_id)
        × (m ≡ str r.method)
        × (p ≡ obj fields)
        × (r.payload ≡ sorted_fields fields)
  unfolding encode_request sorted_fields same_set get str_leb keys
  encode_request-parse_request i m p bs h =
      let (id, id_text, h₁) = bind_inversion (require_text i) _ h in
      let (method, method_text, h₂) = bind_inversion (require_text m) _ h₁ in
      let (fields, dict, h₃) = expect-eq-ok (as_dict p) (error invalid_request) _ h₂ in
      let (i_str, i_filled) = require_text-eq-ok i id id_text in
      let (m_str, m_filled) = require_text-eq-ok m method method_text in
      let r : IpcRequest = record {
        version = protocol_version;
        request_id = id;
        method = method;
        payload = sorted_fields fields;
      } in
      (
        r,
        fields,
        Decodes-parse_request bs r (
          _,
          encode_json-loads json _ bs h₃,
          record {
            exact = refl;
            current = refl;
            version = refl;
            request_id = (refl, i_filled);
            method = (refl, m_filled);
            payload = refl;
          },
        ),
        refl,
        i_str,
        m_str,
        as_dict-eq-some p fields dict,
        refl,
      )
