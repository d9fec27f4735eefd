-- ===== src/Engine.antt =====
-- The persisted state of the service engine of src/devlegate/runtime.py: what `_validate_state_invariant`
-- lets pass, and how `_save_state` replaces it.
-- A text that a set is asked for is looked up in a list; a value that is no text is in none of the sets
-- (one that cannot be hashed raises a `TypeError` there). The messages of one check are one error.
pub mod Identity
pub mod Recovery
pub mod Validate
pub mod Save
mod Tests
use devlegate.Prelude.{
  String, Bool, true, false, ◌&&◌, Option, none, some, List, [], ◌∷◌, contains, is_some,
}
use devlegate.Values.{
  Value, Fields, null, field, no_fields, get, as_dict, as_text, as_nonempty_text, item_as,
}

pub data StateError : Type 0 where
  invalid_phase invalid_reconciliation invalid_failures invalid_automatic_retry : StateError
  invalid_worker_identity key_error invalid_interruption invalid_manual_retry : StateError
  active_worker invalid_integration incomplete_coordinates incomplete_ticket : StateError
  incomplete_control invalid_stage missing_worker retained_worker invalid_pending_report :
      StateError
  premature_checkpoint missing_checkpoint incomplete_binding invalid_remote_head : StateError

-- `fields.get(key) in {…}`
unfoldable pub item_in : String → List String → Fields → Bool
unfolding item_as as_text contains
item_in k texts fs = elim (item_as as_text k fs) [ none ↦ false | some t ↦ contains t texts ]

-- `key not in fields or test(fields[key])`
unfoldable pub if_present : String → (Value → Bool) → Fields → Bool
unfolding get
if_present k test fs = elim (get k fs) [ none ↦ true | some v ↦ test v ]

-- `value is None or test(value)`
abbrev pub or_null : (Value → Bool) → Value → Bool
or_null test null = true
or_null test v = test v

-- `fields.get(key) is None or test(fields[key])`
abbrev pub absent_or : (Value → Bool) → String → Fields → Bool
absent_or test k fs = if_present k (or_null test) fs

abbrev pub is_text : Value → Bool
is_text v = is_some (as_text v)

abbrev pub is_filled : Value → Bool
is_filled v = is_some (as_nonempty_text v)

-- `all(isinstance(fields.get(field), str) for field in …)`
unfoldable pub all_texts : List String → Fields → Bool
unfolding item_as as_text
all_texts [] fs = true
all_texts (k ∷ ks) fs = is_some (item_as as_text k fs) && all_texts ks fs

-- `all(isinstance(fields.get(field), str) and fields[field] for field in …)`
unfoldable pub all_filled : List String → Fields → Bool
unfolding item_as as_nonempty_text
all_filled [] fs = true
all_filled (k ∷ ks) fs = is_some (item_as as_nonempty_text k fs) && all_filled ks fs
