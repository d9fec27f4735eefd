-- ===== src/Engine/Identity.antt =====
-- Git identities and `_worker_identity_from_value` of src/devlegate/runtime.py.
use devlegate.Prelude.{
  ℕ, suc, String, Bool, true, false, not, ◌&&◌, ◌||◌, Option, none, some, List, [], ◌∷◌, codes,
  length, leb, ◌==◌, Result, ok, err, ◌>>=◌, ◌>>◌, require, expect, subset,
}
use devlegate.Values.{
  Value, Fields, str, int, null, get, keys, as_dict, as_text, as_nonempty_text, item_is,
}
use devlegate.Values.Int.{ℤ, pos}
use devlegate.Engine.{StateError, invalid_worker_identity, key_error}

-- A digit, or a letter from a to f in either case: what `lower` leaves in "0123456789abcdef".
abbrev pub is_hex : ℕ → Bool
is_hex c = (leb 48 c && leb c 57) || (leb 97 c && leb c 102) || (leb 65 c && leb c 70)

unfoldable pub all_hex : List ℕ → Bool
all_hex [] = true
all_hex (c ∷ cs) = is_hex c && all_hex cs

-- `_is_git_identity`
unfoldable pub is_git_identity : Value → Bool
unfolding as_text all_hex
is_git_identity v = elim (as_text v) [
  | none ↦ false
  | some s ↦ (length (codes s) == 40) && all_hex (codes s)
]

-- `WorkerProcessIdentity`
pub record WorkerIdentity : Type 0 where
  pub execution_id : String
  pub pid : ℤ
  pub pgid : ℤ
  pub sid : ℤ
  pub boot_id : String
  pub start_time : ℤ
  pub containment_id : Option String

unfoldable pub as_positive : Value → Option ℤ
as_positive (int (pos (suc n))) = some (pos (suc n))
as_positive _ = none

unfoldable pub as_natural : Value → Option ℤ
as_natural (int (pos n)) = some (pos n)
as_natural _ = none

-- `value[key]`, and the check of it.
unfoldable pub read_item : {A : Type 0} → (Value → Option A) → String → Fields → Result StateError A
unfolding get
read_item test k fs = elim (get k fs) [
  | none ↦ err key_error
  | some v ↦ expect (test v) invalid_worker_identity
]

abbrev pub identity_fields : List String
identity_fields = "execution_id" ∷ "pid" ∷ "pgid" ∷ "sid" ∷ "boot_id" ∷ "start_time" ∷ []

-- `set(value) < {…}`: some of the keys, and no others.
abbrev is_proper_part : Fields → Bool
is_proper_part fs = subset (keys fs) identity_fields && not (subset identity_fields (keys fs))

unfoldable pub containment : Fields → Result StateError (Option String)
unfolding get
containment fs = elim (get "containment_id" fs) [ none ↦ ok none | some v ↦ of_value v ]
  where
    of_value : Value → Result StateError (Option String)
    of_value null = ok none
    of_value (str s) = ok (some s)
    of_value _ = err invalid_worker_identity

-- `execution_id is not None and value["execution_id"] != execution_id` raises
unfoldable pub matches : Option Value → Fields → Result StateError (Unit {0})
unfolding item_is get
matches none fs = ok tt
matches (some null) fs = ok tt
matches (some (str x)) fs = elim (get "execution_id" fs) [
  | none ↦ err key_error
  | some v ↦ require (item_is "execution_id" x fs) invalid_worker_identity
]
matches (some v) fs = elim (get "execution_id" fs) [
  | none ↦ err key_error
  | some w ↦ err invalid_worker_identity
]

unfoldable pub read_worker_identity : Option Value → Fields → Result StateError WorkerIdentity
unfolding subset keys matches read_item as_nonempty_text as_positive as_natural containment
read_worker_identity execution_id fs = do
  require (subset (keys fs) ("containment_id" ∷ identity_fields)) invalid_worker_identity
  require (not (is_proper_part fs)) invalid_worker_identity
  matches execution_id fs
  id ← read_item as_nonempty_text "execution_id" fs
  pid ← read_item as_positive "pid" fs
  pgid ← read_item as_positive "pgid" fs
  sid ← read_item as_positive "sid" fs
  start_time ← read_item as_natural "start_time" fs
  boot_id ← read_item as_nonempty_text "boot_id" fs
  containment_id ← containment fs
  ok (record {
    execution_id = id;
    pid = pid;
    pgid = pgid;
    sid = sid;
    boot_id = boot_id;
    start_time = start_time;
    containment_id = containment_id;
  })

-- `_worker_identity_from_value`
unfoldable pub worker_identity :
    Option Value → Option Value → Result StateError (Option WorkerIdentity)
unfolding read_worker_identity as_dict
worker_identity none execution_id = ok none
worker_identity (some null) execution_id = ok none
worker_identity (some v) execution_id = do
  fs ← expect (as_dict v) invalid_worker_identity
  identity ← read_worker_identity execution_id fs
  ok (some identity)
