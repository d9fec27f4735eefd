-- ===== src/Service/Receipts.antt =====
-- The receipts of admitted requests: `_mutable_receipt` and the receipt that
-- `_record_operator_admission` of src/devlegate/runtime.py writes.
use devlegate.Prelude.{
  String, Bool, true, ◌||◌, Option, none, some, List, [], ◌∷◌, str_eq, Result, ok, err, ◌>>=◌, ◌>>◌,
  require, expect, same_set, contains, if◌then◌else◌,
}
use devlegate.Values.{
  Value, Fields, obj, arr, str, int, float, bool, null, field, no_fields, get, put, keys, as_dict,
  as_bool, as_nonempty_text, item_as,
}
use devlegate.Service.Commands.{Command}

abbrev receipt_keys : List String → List String
receipt_keys more = "method" ∷ "fingerprint" ∷ "ticket_id" ∷ "accepted" ∷ more

unfoldable pub receipt_shape : List String → Bool
unfolding same_set
receipt_shape ks =
    same_set ks (receipt_keys [])
    || same_set ks (receipt_keys ("execution_id" ∷ []))
    || same_set ks (receipt_keys ("onto" ∷ []))
    || same_set ks (receipt_keys ("resolution_class" ∷ []))
    || same_set ks (receipt_keys ("onto" ∷ "resolution_class" ∷ []))
    || same_set ks (receipt_keys ("execution_id" ∷ "onto" ∷ "resolution_class" ∷ []))

-- `receipt.get(key)`, None or a text that is not empty
unfoldable pub optional_item : String → Fields → Option (Option String)
unfolding get as_nonempty_text
optional_item k fs = elim (get k fs) [
  | none ↦ some none
  | some v ↦ elim v [
    | null ↦ some none
    | obj x ↦ none
    | arr x ↦ none
    | str s ↦ if str_eq s "" then none else some (some s)
    | int x ↦ none
    | float x ↦ none
    | bool x ↦ none
  ]
]

-- What a receipt says. `onto` is there or not, and None or a text where it is there.
pub record Receipt : Type 0 where
  pub method : String
  pub fingerprint : String
  pub accepted : Bool
  pub execution_id : Option String
  pub onto : Option (Option String)
  pub resolution_class : Option String

-- The checks of one receipt.
unfoldable pub read_receipt : Value → Result String Receipt
unfolding keys item_as as_nonempty_text contains
read_receipt value = do
  fs ← expect (as_dict value) "invalid mutable request receipt"
  require (receipt_shape (keys fs)) "invalid mutable request receipt"
  method ← expect (item_as as_nonempty_text "method" fs) "invalid mutable request receipt"
  fingerprint ← expect (item_as as_nonempty_text "fingerprint" fs) "invalid mutable request receipt"
  ticket_id ← expect (item_as as_nonempty_text "ticket_id" fs) "invalid mutable request receipt"
  accepted ← expect (item_as as_bool "accepted" fs) "invalid mutable request receipt"
  execution_id ←
      expect (optional_item "execution_id" fs) "invalid mutable request receipt execution"
  onto ← expect (optional_item "onto" fs) "invalid mutable request receipt target"
  resolution_class ←
      expect (optional_item "resolution_class" fs) "invalid mutable request receipt resolution"
  ok (record {
    method = method;
    fingerprint = fingerprint;
    accepted = accepted;
    execution_id = execution_id;
    onto = if contains "onto" (keys fs) then some onto else none;
    resolution_class = resolution_class;
  })

-- A receipt that is there: `receipts.get(request_id)` may hold None.
abbrev pub present : Option Value → Option Value
present none = none
present (some v) = elim v [
  | null ↦ none
  | obj x ↦ some (obj x)
  | arr x ↦ some (arr x)
  | str x ↦ some (str x)
  | int x ↦ some (int x)
  | float x ↦ some (float x)
  | bool x ↦ some (bool x)
]

-- The part of `_mutable_receipt` behind the look-up.
unfoldable pub found_receipt : Option Value → Result String (Option Receipt)
found_receipt none = ok none
found_receipt (some v) = read_receipt v >>= (λ r. ok (some r))

-- `_mutable_receipt`
unfoldable pub mutable_receipt : Value → String → Result String (Option Receipt)
unfolding as_dict
mutable_receipt receipts request_id = do
  fs ← expect (as_dict receipts) "invalid mutable request receipt state"
  found_receipt (present (get request_id fs))

abbrev optional : String → Option String → Fields → Fields
optional k none fs = fs
optional k (some s) fs = field k (str s) fs

abbrev receipt_of : Command → Fields → Fields
receipt_of c more = field "method" (str c.request.method) (
    field "fingerprint" (str c.request.fingerprint) (
      field "ticket_id" (str c.request.ticket_id)
        (field "accepted" (bool true) (optional "execution_id" c.request.execution_id more))))

-- The receipt that an admission writes, with the errors of the two automatic reconciliations.
unfoldable pub make_receipt : Command → Result String Fields
make_receipt c =
    if str_eq c.request.method "reconcile-update-base"
    then elim c.onto [
      | none ↦ err "reconciliation target was not resolved"
      | some onto ↦ ok (receipt_of c (field "onto" (str onto) no_fields))
    ]
    else if str_eq c.request.method "reconcile-auto"
    then elim c.resolution_class [
      | none ↦ err "automatic reconciliation was not classified"
      | some class ↦
          ok
            (receipt_of c (optional "onto" c.onto (field "resolution_class" (str class) no_fields)))
    ]
    else ok (receipt_of c no_fields)

-- The receipts with the one of an admission.
unfoldable pub record_receipt : Command → Value → Result String Value
unfolding as_dict make_receipt put
record_receipt c receipts = do
  fs ← expect (as_dict receipts) "invalid mutable request receipt state"
  receipt ← make_receipt c
  ok (obj (put c.request.request_id (obj receipt) fs))
