-- ===== src/Client/Acks.antt =====
-- The acknowledgements and candidates that src/devlegate/ipc_client.py accepts, and the two
-- acknowledgements that the commands of src/devlegate/cli.py check themselves.
pub mod Laws
use devlegate.Prelude.{
  String, Bool, true, false, ◌&&◌, Option, none, some, List, [], ◌∷◌, str_eq, if◌then◌else◌,
  same_set, is_some,
}
use devlegate.Values.{
  Value, Fields, arr, str, int, float, bool, null, field, no_fields, get, keys, as_dict, as_text,
  as_nonempty_text, as_bool, item_as, item_is,
}
use devlegate.Values.Int.{ℤ, pos, int_eq}
use devlegate.Client.Decode.{decode_list}

abbrev is_true : Option Bool → Bool
is_true none = false
is_true (some b) = b

-- `value["accepted"] is True`
unfoldable pub is_accepted : Fields → Bool
unfolding item_as as_bool
is_accepted value = is_true (item_as as_bool "accepted" value)

-- Whether `decode_retry_ack` returns.
unfoldable pub retry_ack : Fields → String → Bool
unfolding same_set keys is_accepted item_is
retry_ack value t =
    same_set (keys value) ("accepted" ∷ "ticket_id" ∷ [])
    && is_accepted value
    && item_is "ticket_id" t value

unfoldable pub drop_ack : Fields → String → String → Bool
unfolding same_set keys is_accepted item_is
drop_ack value t x =
    same_set (keys value) ("accepted" ∷ "ticket_id" ∷ "execution_id" ∷ [])
    && is_accepted value
    && item_is "ticket_id" t value
    && item_is "execution_id" x value

unfoldable pub reconcile_ack : Fields → String → String → Bool
unfolding same_set keys is_accepted item_is
reconcile_ack value t onto =
    same_set (keys value) ("accepted" ∷ "ticket_id" ∷ "onto" ∷ [])
    && is_accepted value
    && item_is "ticket_id" t value
    && item_is "onto" onto value

module _ (float_is_one : String → Bool) where
  -- `v == True`, which holds of the number one as well
  unfoldable pub equals_true : Value → Option Bool
  equals_true (bool b) = some b
  equals_true (int n) = some (int_eq n (pos 1))
  equals_true (float t) = some (float_is_one t)
  equals_true _ = none

  -- `value == {"accepted": True, "ticket_id": ticket_id}`
  unfoldable pub resume_ack : Fields → String → Bool
  unfolding same_set keys item_as equals_true item_is
  resume_ack value t =
      same_set (keys value) ("accepted" ∷ "ticket_id" ∷ [])
      && is_true (item_as equals_true "accepted" value)
      && item_is "ticket_id" t value

  unfoldable pub control_ack : Fields → String → String → Bool
  unfolding same_set keys item_as equals_true item_is
  control_ack value a b =
      same_set (keys value) ("accepted" ∷ "from" ∷ "to" ∷ [])
      && is_true (item_as equals_true "accepted" value)
      && item_is "from" a value
      && item_is "to" b value

-- The checks of `_recover_daemon`.
unfoldable pub recover_ack : Fields → String → String → String → Bool
unfolding same_set keys is_accepted item_is
recover_ack value t x head =
    same_set (keys value) ("accepted" ∷ "ticket_id" ∷ "execution_id" ∷ "observed_head" ∷ [])
    && is_accepted value
    && item_is "ticket_id" t value
    && item_is "execution_id" x value
    && item_is "observed_head" head value

-- `value is None or isinstance(value, str) and value`
abbrev is_null_or_text : Value → Bool
is_null_or_text null = true
is_null_or_text v = is_some (as_nonempty_text v)

-- The checks of `_reconcile_auto_daemon`, which lets other keys pass.
unfoldable pub auto_ack : Fields → String → Bool
unfolding is_accepted item_is get as_nonempty_text
auto_ack value t =
    is_accepted value
    && item_is "ticket_id" t value
    && elim (get "onto" value) [ none ↦ true | some v ↦ is_null_or_text v ]

-- `{key: item[key] for key in item}` of an item whose values are all texts that are not empty.
unfoldable pub filled_fields : Fields → Option Fields
unfolding as_nonempty_text
filled_fields no_fields = some no_fields
filled_fields (field k v fs) =
    let rest = filled_fields fs in
    elim (as_nonempty_text v) [
      | none ↦ none
      | some s ↦ elim rest [ none ↦ none | some gs ↦ some (field k (str s) gs) ]
    ]

-- An item of `_decode_candidates`.
unfoldable pub decode_candidate : List String → Value → Option Fields
unfolding as_dict same_set keys filled_fields
decode_candidate fields v = elim (as_dict v) [
  | none ↦ none
  | some mapping ↦ if same_set (keys mapping) fields then filled_fields mapping else none
]

unfoldable pub decode_candidates : List String → Fields → Option (List Fields)
unfolding item_as decode_list decode_candidate same_set keys
decode_candidates fields value =
    elim (item_as (decode_list (decode_candidate fields)) "candidates" value) [
      | none ↦ none
      | some result ↦ if same_set (keys value) ("candidates" ∷ []) then some result else none
    ]

unfoldable pub decode_retry_candidates : Fields → Option (List Fields)
unfolding decode_candidates
decode_retry_candidates value = decode_candidates ("id" ∷ "title" ∷ "reason" ∷ "kind" ∷ []) value

unfoldable pub decode_drop_candidates : Fields → Option (List Fields)
unfolding decode_candidates
decode_drop_candidates value =
    decode_candidates ("id" ∷ "title" ∷ "reason" ∷ "kind" ∷ "execution_id" ∷ "stage" ∷ []) value
