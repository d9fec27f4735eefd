-- ===== src/Ipc/Message/Responses.antt =====
-- What `parse_response` accepts, and that it reads back what the two encoders write.
use devlegate.Prelude.{
  ℕ, ◌≡◌, ◌↔◌, ◌⊎◌, inl, inr, refl, sym, ap, ◌∙◌, String, Bool, true, false, some, none, List, [],
  ◌∷◌, ok, same_set, subset, expect-eq-ok, require-eq-ok, ok-injective, if◌then◌else◌,
}
use devlegate.Values.{
  Fields, obj, str, int, bool, get, keys, as_dict, as_int, as_bool, as_text, as_nonempty_text,
}
use devlegate.Values.Int.{ℤ, int_eq, int_eq_iff}
use devlegate.Ipc.Errors.{error, malformed_protocol, unsupported_version}
use devlegate.Ipc.Json.{Json}
use devlegate.Ipc.Message.{
  IpcResponse, protocol_version, common_fields, decode_json, parse_success, parse_error,
  parse_response,
}
use devlegate.Values.{item_as}
use devlegate.Values.Reads.{
  HasText, HasText-item_as, item_as-get, item_as-int, item_as-bool, item_as-text, item_as-dict,
  item_as-nonempty_text, as_dict-eq-some,
}

abbrev Success : Fields → IpcResponse → Type 0
Success fields r =
    (r.ok ≡ true)
    × (same_set (keys fields) ("version" ∷ "id" ∷ "ok" ∷ "result" ∷ []) ≡ true)
    × (r.error ≡ none)
    × ((g : Fields) × (r.result ≡ some g) × (get "result" fields ≡ some (obj g)))

abbrev Failure : Fields → IpcResponse → Type 0
Failure fields r =
    (r.ok ≡ false)
    × (same_set (keys fields) ("version" ∷ "id" ∷ "ok" ∷ "error" ∷ []) ≡ true)
    × (r.result ≡ none)
    × ((d : Fields) × (r.error ≡ some d)
        × (get "error" fields ≡ some (obj d))
        × (same_set (keys d) ("code" ∷ "message" ∷ []) ≡ true)
        × ((s : String) × HasText "code" d s)
        × ((s : String) × HasText "message" d s))

-- The document of a response: the common fields, and those of a success or of an error.
pub record IsResponse (fields : Fields) (r : IpcResponse) : Type 0 where
  pub common : subset common_fields (keys fields) ≡ true
  pub current : r.version ≡ protocol_version
  pub version : get "version" fields ≡ some (int r.version)
  pub request_id : get "id" fields ≡ some (str r.request_id)
  pub success : get "ok" fields ≡ some (bool r.ok)
  pub shape : Success fields r ⊎ Failure fields r

abbrev pub DecodesTo : Json → List ℕ → IpcResponse → Type 0
DecodesTo json bs r = (fields : Fields) × (json.loads bs ≡ some (obj fields)) × IsResponse fields r

module _ (json : Json) where
  parse_success-Success :
      (n : ℤ) (i : String) (fields : Fields) (r : IpcResponse)
      → parse_success json n i fields ≡ ok r
      → (n ≡ r.version) × (i ≡ r.request_id) × Success fields r
  unfolding parse_success
  parse_success-Success n i fields r h =
      let (exact, h₁) =
        require-eq-ok (same_set (keys fields) ("version" ∷ "id" ∷ "ok" ∷ "result" ∷ []))
          (error malformed_protocol) _ h in
      let (g, result, h₂) =
        expect-eq-ok (item_as as_dict "result" fields) (error malformed_protocol) _ h₁ in
      rw (← ok-injective h₂)
        (refl, refl, (refl, exact, refl, (g, refl, item_as-dict "result" fields g result)))

  parse_error-Failure :
      (n : ℤ) (i : String) (fields : Fields) (r : IpcResponse)
      → parse_error json n i fields ≡ ok r
      → (n ≡ r.version) × (i ≡ r.request_id) × Failure fields r
  unfolding parse_error
  parse_error-Failure n i fields r h =
      let (exact, h₁) =
        require-eq-ok (same_set (keys fields) ("version" ∷ "id" ∷ "ok" ∷ "error" ∷ []))
          (error malformed_protocol) _ h in
      let (d, details, h₂) =
        expect-eq-ok (item_as as_dict "error" fields) (error malformed_protocol) _ h₁ in
      let (shape, h₃) =
        require-eq-ok (same_set (keys d) ("code" ∷ "message" ∷ [])) (error malformed_protocol) _
          h₂ in
      let (c, code, h₄) =
        expect-eq-ok (item_as as_nonempty_text "code" d) (error malformed_protocol) _ h₃ in
      let (m, message, h₅) =
        expect-eq-ok (item_as as_nonempty_text "message" d) (error malformed_protocol) _ h₄ in
      rw (← ok-injective h₅) (
        refl,
        refl,
        (
          refl,
          exact,
          refl,
          (
            d,
            refl,
            item_as-dict "error" fields d details,
            shape,
            (c, item_as-nonempty_text "code" d c code),
            (m, item_as-nonempty_text "message" d m message),
          ),
        ),
      )

  parse_response-DecodesTo :
      (bs : List ℕ) (r : IpcResponse) → parse_response json bs ≡ ok r → DecodesTo json bs r
  unfolding parse_response decode_json
  parse_response-DecodesTo bs r h =
      let (v, loaded, h₁) = expect-eq-ok (json.loads bs) (error malformed_protocol) _ h in
      let (fields, dict, h₂) = expect-eq-ok (as_dict v) (error malformed_protocol) _ h₁ in
      let (common, h₃) =
        require-eq-ok (subset common_fields (keys fields)) (error malformed_protocol) _ h₂ in
      let (n, version, h₄) =
        expect-eq-ok (item_as as_int "version" fields) (error malformed_protocol) _ h₃ in
      let (current, h₅) =
        require-eq-ok (int_eq n protocol_version) (error unsupported_version) _ h₄ in
      let (i, id, h₆) =
        expect-eq-ok (item_as as_text "id" fields) (error malformed_protocol) _ h₅ in
      let (b, success, h₇) =
        expect-eq-ok (item_as as_bool "ok" fields) (error malformed_protocol) _ h₆ in
      let (same_version, same_id, same_ok, shape) = parts fields n i b h₇ in
      (
        fields,
        loaded ∙ ap some (as_dict-eq-some v fields dict),
        record {
          common = common;
          current = sym same_version ∙ (int_eq_iff n protocol_version).0 current;
          version = item_as-int "version" fields n version ∙ ap (λ q. some (int q)) same_version;
          request_id = item_as-text "id" fields i id ∙ ap (λ q. some (str q)) same_id;
          success = item_as-bool "ok" fields b success ∙ ap (λ q. some (bool q)) same_ok;
          shape = shape;
        },
      )
    where
      parts :
          (fields : Fields) (n : ℤ) (i : String) (b : Bool)
          → (if b then parse_success json n i fields else parse_error json n i fields) ≡ ok r
          → (n ≡ r.version)
            × (i ≡ r.request_id)
            × (b ≡ r.ok)
            × (Success fields r ⊎ Failure fields r)
      parts fields n i true e =
          let (v, d, s) = parse_success-Success n i fields r e in (v, d, sym s.0, inl s)
      parts fields n i false e =
          let (v, d, s) = parse_error-Failure n i fields r e in (v, d, sym s.0, inr s)

  branch-eq-ok :
      (fields : Fields) (r : IpcResponse)
      → Success fields r ⊎ Failure fields r
      → (if r.ok
          then parse_success json r.version r.request_id fields
          else parse_error json r.version r.request_id fields)
        ≡ ok r
  unfolding parse_success parse_error as_dict
  branch-eq-ok fields r (inl (is_ok, exact, no_error, (g, result, got))) =
      rw (is_ok, exact, item_as-get as_dict "result" fields (obj g) got)
        (λ j. ok (record {
          version = r.version;
          request_id = r.request_id;
          ok = true;
          result = sym result j;
          error = sym no_error j;
        }))
  branch-eq-ok fields r
        (inr (is_ok, exact, no_result, (d, details, got, shape, (c, code), (m, message)))) =
      rw
        (
          is_ok,
          exact,
          item_as-get as_dict "error" fields (obj d) got,
          shape,
          HasText-item_as "code" d c code,
          HasText-item_as "message" d m message,
        )
        (λ j. ok (record {
          version = r.version;
          request_id = r.request_id;
          ok = false;
          result = sym no_result j;
          error = sym details j;
        }))

  pub DecodesTo-parse_response :
      (bs : List ℕ) (r : IpcResponse) → DecodesTo json bs r → parse_response json bs ≡ ok r
  unfolding parse_response decode_json as_dict as_int as_text as_bool
  DecodesTo-parse_response bs r (fields, loaded, q) =
      rw
        (
          loaded,
          q.common,
          item_as-get as_int "version" fields (int r.version) q.version,
          q.current,
          item_as-get as_text "id" fields (str r.request_id) q.request_id,
          item_as-get as_bool "ok" fields (bool r.ok) q.success,
          ← q.current,
        )
        (branch-eq-ok fields r q.shape)

  -- `parse_response` returns a response exactly where the bytes decode to a dict that holds the version
  -- of the protocol, a text as the id and a Boolean, and besides only either, where the Boolean is true,
  -- a dict as the result, or, where it is false, an error that has a code and a message and nothing
  -- else, both texts and not empty; and it returns what these fields hold.
  pub parse_response_iff :
      (bs : List ℕ) (r : IpcResponse) → (parse_response json bs ≡ ok r) ↔ DecodesTo json bs r
  parse_response_iff bs r = (parse_response-DecodesTo bs r, DecodesTo-parse_response bs r)
