-- ===== src/Ipc/Message/Items.antt =====
-- What the checks of a message say about it.
use devlegate.Prelude.{◌≡◌, String, false, Option, none, some, List, str_eq, ok, expect, ℕ}
use devlegate.Values.{Value, Fields, obj, str, as_nonempty_text}
use devlegate.Values.Reads.{as_nonempty_text-eq-some}
use devlegate.Ipc.Errors.{error, invalid_request}
use devlegate.Ipc.Json.{Json, IsJson, sorted_fields}
use devlegate.Ipc.Message.{require_text, encode_json}

pub require_text-eq-ok :
    (v : Value) (s : String) → require_text v ≡ ok s → (v ≡ str s) × (str_eq s "" ≡ false)
unfolding require_text
require_text-eq-ok v s h = as_nonempty_text-eq-some v s (given (as_nonempty_text v) h)
  where
    given : (o : Option String) → expect o (error invalid_request) ≡ ok s → o ≡ some s
    given none e = cc
    given (some t) e = cc

pub encode_json-loads :
    (json : Json) ⦃law : IsJson json⦄ (fs : Fields) (bs : List ℕ)
    → encode_json json fs ≡ ok bs
    → json.loads bs ≡ some (obj (sorted_fields fs))
unfolding encode_json sorted_fields
encode_json-loads json ⦃law = law⦄ fs bs h =
    law.loads_dumps (obj fs) bs (given (json.dumps (obj fs)) h)
  where
    given : (o : Option (List ℕ)) → expect o (error invalid_request) ≡ ok bs → o ≡ some bs
    given none e = cc
    given (some t) e = cc
