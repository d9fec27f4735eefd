-- ===== src/Service/Slot/Made.antt =====
-- What the receipt that an admission makes of a command reads as.
use mathlib.Core.Path.{subst}
use devlegate.Prelude.{
  err-ne-ok, ◌≡◌, ◌⊎◌, inl, inr, refl, ap, String, true, false, ◌||◌, Bool-cases, Option,
  Option-cases, none, some, arith, eq_refl, eq_iff, str_eq, Result, ok, contains, same_set,
  ok-injective,
}
use devlegate.Values.{
  Fields, obj, str, bool, field, no_fields, get, keys, as_dict, as_bool, as_nonempty_text, item_as,
}
use devlegate.Service.Commands.{Command, operator_ack}
use devlegate.Service.Receipts.{Receipt, receipt_shape, optional_item, read_receipt, make_receipt}
use devlegate.Service.Slot.{as_submitted, replay}

abbrev Filled : Option String → Type 0
Filled none = Unit
Filled (some s) = str_eq s "" ≡ false

-- A command as the dispatch and the validation leave it: its texts are not empty, the reconciliations
-- that resolve their target come without an execution, and where the receipt does not hold the
-- target, it is still the one of the request.
pub record IsResolved (c : Command) : Type 0 where
  pub method : str_eq c.request.method "" ≡ false
  pub fingerprint : str_eq c.request.fingerprint "" ≡ false
  pub ticket_id : str_eq c.request.ticket_id "" ≡ false
  pub execution_id : Filled c.request.execution_id
  pub onto : Filled c.onto
  pub resolution_class : Filled c.resolution_class
  pub lone :
      (str_eq c.request.method "reconcile-update-base" || str_eq c.request.method "reconcile-auto")
        ≡ true
      → c.request.execution_id ≡ none
  pub kept :
      (str_eq c.request.method "reconcile-update-base" ≡ false)
      → (str_eq c.request.method "reconcile-auto" ≡ false) ⊎ (c.onto ≡ none)
      → c.request.onto ≡ c.onto

-- What the receipt of a command reads as.
abbrev said : Command → Option String → Option (Option String) → Option String → Receipt
said c execution_id onto class = record {
  method = c.request.method;
  fingerprint = c.request.fingerprint;
  accepted = true;
  execution_id = execution_id;
  onto = onto;
  resolution_class = class;
}

-- Only the automatic reconciliation answers with the class.
operator_ack_class :
    (m t : String) (onto execution_id x y : Option String)
    → str_eq m "reconcile-auto" ≡ false
    → operator_ack m t onto execution_id x ≡ operator_ack m t onto execution_id y
unfolding operator_ack
operator_ack_class m t onto execution_id x y h = rw h refl

module _ (c : Command) (i : IsResolved c) where
  -- The answer that the admission gives.
  abbrev pub ack : Result String Fields
  ack =
      operator_ack c.request.method c.request.ticket_id c.onto c.request.execution_id
        c.resolution_class

  -- The document reads as a receipt that gives the same answer.
  abbrev pub Replays : Fields → Type 0
  Replays fs =
      (r : Receipt) × (read_receipt (obj fs) ≡ ok r) × (replay c.request r ≡ as_submitted ack)

  abbrev fields_of : Fields → Fields
  fields_of more = field "method" (str c.request.method) (
      field "fingerprint" (str c.request.fingerprint)
        (field "ticket_id" (str c.request.ticket_id) (field "accepted" (bool true) more)))

  replay_update_base :
      (o : String)
      → c.onto ≡ some o
      → str_eq c.request.method "reconcile-update-base" ≡ true
      → Replays (fields_of (field "onto" (str o) no_fields))
  unfolding read_receipt as_dict receipt_shape keys same_set contains item_as get as_nonempty_text
      as_bool optional_item replay
  replay_update_base o e u =
      let lone = i.lone (ground arith) in
      let filled : str_eq o "" ≡ false = subst Filled e i.onto in
      (
        said c none (some (some o)) none,
        rw (i.method, i.fingerprint, i.ticket_id, filled) refl,
        rw (eq_refl c.request.method, eq_refl c.request.fingerprint, e, lone)
            (ap as_submitted (
              operator_ack_class c.request.method c.request.ticket_id (some o) none none
                c.resolution_class
                (other ((eq_iff c.request.method "reconcile-update-base").0 u)))),
      )
    where
      other :
          c.request.method ≡ "reconcile-update-base"
          → str_eq c.request.method "reconcile-auto" ≡ false
      other k = rw k refl

  replay_auto :
      (k : String)
      → c.resolution_class ≡ some k
      → str_eq c.request.method "reconcile-update-base" ≡ false
      → str_eq c.request.method "reconcile-auto" ≡ true
      → (o : Option String) → c.onto ≡ o
      → Replays (
          fields_of (elim o [
            | none ↦ field "resolution_class" (str k) no_fields
            | some onto ↦ field "onto" (str onto) (field "resolution_class" (str k) no_fields)
          ]))
  unfolding read_receipt as_dict receipt_shape keys same_set contains item_as get as_nonempty_text
      as_bool optional_item replay
  replay_auto k e u a none f =
      let lone = i.lone (ground arith) in
      let kept = i.kept u (inr f) in
      let filled : str_eq k "" ≡ false = subst Filled e i.resolution_class in
      (
        said c none none (some k),
        rw (i.method, i.fingerprint, i.ticket_id, filled) refl,
        rw (eq_refl c.request.method, eq_refl c.request.fingerprint, kept, e, lone) refl,
      )
  replay_auto k e u a (some o) f =
      let lone = i.lone (ground arith) in
      let filled : str_eq k "" ≡ false = subst Filled e i.resolution_class in
      let filled' : str_eq o "" ≡ false = subst Filled f i.onto in
      (
        said c none (some (some o)) (some k),
        rw (i.method, i.fingerprint, i.ticket_id, filled, filled') refl,
        rw (eq_refl c.request.method, eq_refl c.request.fingerprint, f, e, lone) refl,
      )

  replay_other :
      str_eq c.request.method "reconcile-update-base" ≡ false
      → str_eq c.request.method "reconcile-auto" ≡ false
      → (x : Option String) → c.request.execution_id ≡ x
      → Replays (
          fields_of (elim x [ none ↦ no_fields | some d ↦ field "execution_id" (str d) no_fields ]))
  unfolding read_receipt as_dict receipt_shape keys same_set contains item_as get as_nonempty_text
      as_bool optional_item replay
  replay_other u a none f =
      let kept = i.kept u (inl a) in
      (
        said c none none none,
        rw (i.method, i.fingerprint, i.ticket_id) refl,
        rw (eq_refl c.request.method, eq_refl c.request.fingerprint, kept)
            (ap as_submitted (
              operator_ack_class c.request.method c.request.ticket_id c.onto c.request.execution_id
                none c.resolution_class a)),
      )
  replay_other u a (some d) f =
      let kept = i.kept u (inl a) in
      let filled : str_eq d "" ≡ false = subst Filled f i.execution_id in
      (
        said c (some d) none none,
        rw (i.method, i.fingerprint, i.ticket_id, filled) refl,
        rw (eq_refl c.request.method, eq_refl c.request.fingerprint, kept)
            (ap as_submitted (
              operator_ack_class c.request.method c.request.ticket_id c.onto c.request.execution_id
                none c.resolution_class a)),
      )

  pub made : (fs : Fields) → make_receipt c ≡ ok fs → Replays fs
  unfolding make_receipt
  made fs h = elim (Bool-cases (str_eq c.request.method "reconcile-update-base")) [
    | inl u ↦ elim (Option-cases c.onto) [
      | inl e ↦ absurd (err-ne-ok (rw (make_receipt, u, e) at h))
      | inr (o, e) ↦
          let lone = i.lone (ground arith) in
          subst Replays (ok-injective (rw (make_receipt, u, e, lone) at h))
            (replay_update_base o e u)
    ]
    | inr u ↦ elim (Bool-cases (str_eq c.request.method "reconcile-auto")) [
      | inl a ↦ elim (Option-cases c.resolution_class) [
        | inl e ↦ absurd (err-ne-ok (rw (make_receipt, u, a, e) at h))
        | inr (k, e) ↦
            let lone = i.lone (ground arith) in
            elim (Option-cases c.onto) [
              | inl f ↦
                  subst Replays (ok-injective (rw (make_receipt, u, a, e, f, lone) at h))
                    (replay_auto k e u a none f)
              | inr (o, f) ↦
                  subst Replays (ok-injective (rw (make_receipt, u, a, e, f, lone) at h))
                    (replay_auto k e u a (some o) f)
            ]
      ]
      | inr a ↦ elim (Option-cases c.request.execution_id) [
        | inl f ↦
            subst Replays (ok-injective (rw (make_receipt, u, a, f) at h)) (replay_other u a none f)
        | inr (d, f) ↦
            subst Replays (ok-injective (rw (make_receipt, u, a, f) at h))
              (replay_other u a (some d) f)
      ]
    ]
  ]
