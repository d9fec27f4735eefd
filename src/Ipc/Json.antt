-- ===== src/Ipc/Json.antt =====
-- Python's `json`, which the protocol builds on: not part of the repository, so a parameter.
use devlegate.Prelude.{ℕ, ◌≡◌, String, Option, some, List, str_leb, if◌then◌else◌}
use devlegate.Values.{
  Value, Items, Fields, obj, arr, str, int, float, bool, null, field, no_fields, item, no_items,
}

insert_field : String → Value → Fields → Fields
insert_field k v no_fields = field k v no_fields
insert_field k v (field j w fs) =
    if str_leb k j then field k v (field j w fs) else field j w (insert_field k v fs)

-- The order that `sort_keys=True` gives the fields of each object.
unfoldable mutual
  unfolding insert_field str_leb

  pub sorted_value : Value → Value
  sorted_value (obj fs) = obj (sorted_fields fs)
  sorted_value (arr vs) = arr (sorted_items vs)
  sorted_value (str s) = str s
  sorted_value (int n) = int n
  sorted_value (float t) = float t
  sorted_value (bool b) = bool b
  sorted_value null = null

  pub sorted_items : Items → Items
  sorted_items no_items = no_items
  sorted_items (item v vs) = item (sorted_value v) (sorted_items vs)

  pub sorted_fields : Fields → Fields
  sorted_fields no_fields = no_fields
  sorted_fields (field k v fs) = insert_field k (sorted_value v) (sorted_fields fs)

-- `loads` is `json.loads` of the bytes as UTF-8, and nothing where either step raises; `dumps` is
-- `json.dumps(…, sort_keys=True)` as UTF-8, and nothing where the value is not encodable.
pub record Json : Type 0 where
  pub loads : List ℕ → Option Value
  pub dumps : Value → Option (List ℕ)

-- Documented of `json`: what `dumps` writes `loads` reads back, with the fields in their order.
pub record IsJson (json : Json) : Type 0 where
  pub loads_dumps :
      (v : Value) (bs : List ℕ) → json.dumps v ≡ some bs → json.loads bs ≡ some (sorted_value v)
