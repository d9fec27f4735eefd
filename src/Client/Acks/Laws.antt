-- ===== src/Client/Acks/Laws.antt =====
-- The client accepts the acknowledgements that the service makes.
use devlegate.Prelude.{
  ◌≡◌, refl, String, Bool, true, false, Option, none, some, eq_refl, str_eq, ok, ok-injective,
  contains, subset, same_set,
}
use devlegate.Values.{
  Fields, str, bool, field, no_fields, get, keys, as_text, as_bool, as_nonempty_text, item_as,
  item_is,
}
use devlegate.Ipc.Json.{sorted_fields}
use devlegate.Service.Commands.{operator_ack}
use devlegate.Client.Acks.{
  is_accepted, retry_ack, drop_ack, reconcile_ack, recover_ack, auto_ack, equals_true, resume_ack,
  control_ack,
}

-- The revision that the reconciliation has resolved, where there is one, is not empty.
abbrev pub IsTarget : Option String → Type 0
IsTarget none = Unit {0}
IsTarget (some to) = str_eq to "" ≡ false

module _ (float_is_one : String → Bool) where
  abbrev ack : Fields → Fields
  ack fs = field "accepted" (bool true) fs

  retry_ack-sorted :
      (t : String) → retry_ack (sorted_fields (ack (field "ticket_id" (str t) no_fields))) t ≡ true
  unfolding retry_ack sorted_fields is_accepted item_is item_as as_bool as_text get keys same_set
      subset contains
  retry_ack-sorted t = rw (eq_refl t) refl

  drop_ack-sorted :
      (t x : String)
      → drop_ack
          (sorted_fields (ack (field "ticket_id" (str t) (field "execution_id" (str x) no_fields))))
          t
          x
        ≡ true
  unfolding drop_ack sorted_fields is_accepted item_is item_as as_bool as_text get keys same_set
      subset contains
  drop_ack-sorted t x = rw (eq_refl t, eq_refl x) refl

  reconcile_ack-sorted :
      (t to : String)
      → reconcile_ack
          (sorted_fields (ack (field "ticket_id" (str t) (field "onto" (str to) no_fields))))
          t
          to
        ≡ true
  unfolding reconcile_ack sorted_fields is_accepted item_is item_as as_bool as_text get keys
      same_set subset contains
  reconcile_ack-sorted t to = rw (eq_refl t, eq_refl to) refl

  resume_ack-sorted :
      (t : String)
      → resume_ack float_is_one (sorted_fields (ack (field "ticket_id" (str t) no_fields))) t ≡ true
  unfolding resume_ack equals_true sorted_fields item_is item_as as_text get keys same_set subset
      contains
  resume_ack-sorted t = rw (eq_refl t) refl

  control_ack-sorted :
      (a b : String)
      → control_ack float_is_one
          (sorted_fields (ack (field "from" (str a) (field "to" (str b) no_fields))))
          a
          b
        ≡ true
  unfolding control_ack equals_true sorted_fields item_is item_as as_text get keys same_set subset
      contains
  control_ack-sorted a b = rw (eq_refl a, eq_refl b) refl

  recover_ack-sorted :
      (t x head : String)
      → recover_ack
          (sorted_fields (
            ack (
              field "ticket_id"
                (str t)
                (field "execution_id" (str x) (field "observed_head" (str head) no_fields)))))
          t
          x
          head
        ≡ true
  unfolding recover_ack sorted_fields is_accepted item_is item_as as_bool as_text get keys same_set
      subset contains
  recover_ack-sorted t x head = rw (eq_refl t, eq_refl x, eq_refl head) refl

  auto_ack-sorted :
      (t : String) (onto class : Option String) (fs : Fields)
      → IsTarget onto
      → operator_ack "reconcile-auto" t onto none class ≡ ok fs
      → auto_ack (sorted_fields fs) t ≡ true
  unfolding operator_ack auto_ack sorted_fields is_accepted item_is item_as as_bool as_text
      as_nonempty_text get
  auto_ack-sorted t none none fs i h = rw (← ok-injective h) (rw (eq_refl t) refl)
  auto_ack-sorted t none (some k) fs i h = rw (← ok-injective h) (rw (eq_refl t) refl)
  auto_ack-sorted t (some to) none fs i h = rw (← ok-injective h) (rw (eq_refl t, i) refl)
  auto_ack-sorted t (some to) (some k) fs i h = rw (← ok-injective h) (rw (eq_refl t, i) refl)

  -- An acknowledgement of the service to any of the seven operator commands, sent with its keys in order, is
  -- one that the client accepts for the same ticket or revision, and for the execution and the revision that
  -- the service acknowledges, which are there where the command needs them; for `reconcile-auto` where the
  -- revision that it has resolved, if any, is not empty.
  pub operator_ack-Accepted :
      (t : String) (onto execution_id resolution_class : Option String) (fs : Fields)
      → (operator_ack "retry" t onto execution_id resolution_class ≡ ok fs
          → retry_ack (sorted_fields fs) t ≡ true)
        × (operator_ack "drop" t onto execution_id resolution_class ≡ ok fs
            → (x : String) × (execution_id ≡ some x) × (drop_ack (sorted_fields fs) t x ≡ true))
        × (operator_ack "reconcile-update-base" t onto execution_id resolution_class ≡ ok fs
            → (to : String) × (onto ≡ some to) × (reconcile_ack (sorted_fields fs) t to ≡ true))
        × (operator_ack "reconcile-resume" t onto execution_id resolution_class ≡ ok fs
            → resume_ack float_is_one (sorted_fields fs) t ≡ true)
        × (operator_ack "reconcile-control" t onto execution_id resolution_class ≡ ok fs
            → (to : String) × (onto ≡ some to)
              × (control_ack float_is_one (sorted_fields fs) t to ≡ true))
        × (operator_ack "recover" t onto execution_id resolution_class ≡ ok fs
            → (x : String) × (head : String) × (execution_id ≡ some x)
              × (onto ≡ some head)
              × (recover_ack (sorted_fields fs) t x head ≡ true))
        × (operator_ack "reconcile-auto" t onto execution_id resolution_class ≡ ok fs
            → IsTarget onto
            → auto_ack (sorted_fields fs) t ≡ true)
  unfolding operator_ack
  operator_ack-Accepted t onto execution_id resolution_class fs = (
    (λ h. rw (← ok-injective h) (retry_ack-sorted t)),
    dropped execution_id,
    updated onto,
    (λ h. rw (← ok-injective h) (resume_ack-sorted t)),
    controlled onto,
    recovered execution_id onto,
    (λ h i. auto_ack-sorted t onto resolution_class fs i h),
  )
    where
      recovered :
          (e o : Option String)
          → operator_ack "recover" t o e resolution_class ≡ ok fs
          → (x : String) × (head : String) × (e ≡ some x)
            × (o ≡ some head)
            × (recover_ack (sorted_fields fs) t x head ≡ true)
      recovered none o h = cc
      recovered (some x) none h = cc
      recovered (some x) (some head) h =
          (x, head, refl, refl, rw (← ok-injective h) (recover_ack-sorted t x head))

      dropped :
          (e : Option String)
          → operator_ack "drop" t onto e resolution_class ≡ ok fs
          → (x : String) × (e ≡ some x) × (drop_ack (sorted_fields fs) t x ≡ true)
      dropped none h = cc
      dropped (some x) h = (x, refl, rw (← ok-injective h) (drop_ack-sorted t x))

      updated :
          (o : Option String)
          → operator_ack "reconcile-update-base" t o execution_id resolution_class ≡ ok fs
          → (to : String) × (o ≡ some to) × (reconcile_ack (sorted_fields fs) t to ≡ true)
      updated none h = cc
      updated (some to) h = (to, refl, rw (← ok-injective h) (reconcile_ack-sorted t to))

      controlled :
          (o : Option String)
          → operator_ack "reconcile-control" t o execution_id resolution_class ≡ ok fs
          → (to : String) × (o ≡ some to)
            × (control_ack float_is_one (sorted_fields fs) t to ≡ true)
      controlled none h = cc
      controlled (some to) h = (to, refl, rw (← ok-injective h) (control_ack-sorted t to))
