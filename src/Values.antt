-- ===== src/Values.antt =====
-- The values of a dynamically typed document, as `json.loads` returns them and as the code tests them
-- by `isinstance`. A dict is a list of fields in the order of insertion. A float keeps its text:
-- nothing that is modelled computes with one.
pub mod Int
pub mod Reads
use Int.{ℤ, int_eq}
use devlegate.Prelude.{
  String, Bool, true, false, not, ◌&&◌, ◌||◌, Option, none, some, List, [], ◌∷◌, str_eq, str_leb,
  if◌then◌else◌,
}

mutual
  pub data Fields : Type 0 where
    field : String → Value → Fields → Fields
    no_fields : Fields

  pub data Value : Type 0 where
    obj : Fields → Value
    arr : Items → Value
    str : String → Value
    int : ℤ → Value
    float : String → Value
    bool : Bool → Value
    null : Value

  pub data Items : Type 0 where
    item : Value → Items → Items
    no_items : Items

-- `fields.get(key)`
unfoldable pub get : String → Fields → Option Value
get k no_fields = none
get k (field j v fs) = if str_eq k j then some v else get k fs

unfoldable pub keys : Fields → List String
keys no_fields = []
keys (field j v fs) = j ∷ keys fs

-- `fields[key] = value`
unfoldable pub put : String → Value → Fields → Fields
put k v no_fields = field k v no_fields
put k v (field j w fs) = if str_eq k j then field j v fs else field j w (put k v fs)

-- `{**fields, **others}`
unfoldable pub merge : Fields → Fields → Fields
unfolding put
merge fs no_fields = fs
merge fs (field k v others) = merge (put k v fs) others

-- `isinstance(value, dict)`, with the dict
unfoldable pub as_dict : Value → Option Fields
as_dict (obj fs) = some fs
as_dict _ = none

-- `isinstance(value, str)`, with the text
unfoldable pub as_text : Value → Option String
as_text (str s) = some s
as_text _ = none

-- `isinstance(value, str) and value`, with the text
unfoldable pub as_nonempty_text : Value → Option String
as_nonempty_text (str s) = if str_eq s "" then none else some s
as_nonempty_text _ = none

-- `isinstance(value, int) and not isinstance(value, bool)`, with the number
unfoldable pub as_int : Value → Option ℤ
as_int (int n) = some n
as_int _ = none

unfoldable pub as_bool : Value → Option Bool
as_bool (bool b) = some b
as_bool _ = none

unfoldable pub items_texts : Items → Option (List String)
unfolding as_text
items_texts no_items = some []
items_texts (item v vs) =
    let rest = items_texts vs in
    elim (as_text v) [ none ↦ none | some s ↦ elim rest [ none ↦ none | some l ↦ some (s ∷ l) ] ]

-- `isinstance(value, list) and all(isinstance(item, str) for item in value)`, with the texts
unfoldable pub as_texts : Value → Option (List String)
unfolding items_texts
as_texts (arr vs) = items_texts vs
as_texts _ = none

-- A list of texts as a document.
unfoldable pub texts : List String → Items
texts [] = no_items
texts (s ∷ l) = item (str s) (texts l)

-- `value or None` as a document: a text, or null.
unfoldable pub text_or_null : Option String → Value
text_or_null none = null
text_or_null (some s) = str s

-- The item under a key, through a test.
unfoldable pub item_as : {A : Type 0} → (Value → Option A) → String → Fields → Option A
unfolding get
item_as test k fs = elim (get k fs) [ none ↦ none | some v ↦ test v ]

-- `isinstance(value, (str, type(None)))`, with the text or None
unfoldable pub nullable_text : Value → Option (Option String)
nullable_text null = some none
nullable_text (str s) = some (some s)
nullable_text _ = none

-- `fields.get(key)`, a text or None
unfoldable pub nullable_item : String → Fields → Option (Option String)
unfolding get
nullable_item k fs = elim (get k fs) [ none ↦ some none | some v ↦ nullable_text v ]

-- `fields.get(key) == text`
unfoldable pub item_is : String → String → Fields → Bool
unfolding get as_text
item_is k s fs = elim (get k fs) [
  | none ↦ false
  | some v ↦ elim (as_text v) [ none ↦ false | some t ↦ str_eq t s ]
]
