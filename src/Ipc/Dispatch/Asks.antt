-- ===== src/Ipc/Dispatch/Asks.antt =====
-- Which call the checks of `dispatch_mutation` let a request make.
use devlegate.Prelude.{◌≡◌, ◌↔◌, inl, inr, refl, String, Bool, [], ◌∷◌, ok}
use devlegate.Values.{Fields}
use devlegate.Ipc.Dispatch.{
  check_lifecycle, check_retry, check_drop, check_recover, check_update_base, check_resume,
  check_auto, check_control, check_mutation,
}
use devlegate.Values.Reads.{HasText-item_as}
use devlegate.Ipc.Dispatch.Shapes.{flag_iff, optional_text_iff}
use devlegate.Ipc.Calls.{
  Call, lifecycle, submit_retry, submit_drop, submit_recover, submit_reconcile_update_base,
  submit_reconcile_resume, submit_reconcile_auto, submit_reconcile_control,
}
use devlegate.Ipc.Dispatch.KeySets.{
  exact_iff, force_iff, one_optional_iff, with_or_without_iff, two_optional_iff,
}
use devlegate.Ipc.Dispatch.Asked.{Asks, check_mutation-Asks}

Asks-check_mutation :
    (offered : Bool) (fs : Fields) (c : Call) (m : String)
    → Asks offered m fs c
    → check_mutation offered m fs ≡ ok c
unfolding check_mutation Asks check_lifecycle check_retry check_drop check_recover check_update_base
    check_resume check_auto check_control
Asks-check_mutation offered fs (lifecycle n force) m (same, inl stop, exact, given, told) =
    rw (← same, stop, (force_iff fs).1 exact, given, (flag_iff "force" fs force).1 told) refl
Asks-check_mutation offered fs (lifecycle n force) m (same, inr restart, exact, given, told) =
    rw (← same, restart, (force_iff fs).1 exact, given, (flag_iff "force" fs force).1 told) refl
Asks-check_mutation offered fs (submit_retry t force) m (named, exact, ticket, told) =
    rw
      (
        named,
        (one_optional_iff fs "ticket_id" "force").1 exact,
        HasText-item_as "ticket_id" fs t ticket,
        (flag_iff "force" fs force).1 told,
      )
      refl
Asks-check_mutation offered fs (submit_drop t x) m (named, exact, ticket, execution) =
    rw
      (
        named,
        (exact_iff fs ("ticket_id" ∷ "execution_id" ∷ [])).1 exact,
        HasText-item_as "ticket_id" fs t ticket,
        HasText-item_as "execution_id" fs x execution,
      )
      refl
Asks-check_mutation offered fs (submit_recover t x head) m
      (named, exact, ticket, execution, observed) =
    rw
      (
        named,
        (exact_iff fs ("ticket_id" ∷ "execution_id" ∷ "observed_head" ∷ [])).1 exact,
        HasText-item_as "ticket_id" fs t ticket,
        HasText-item_as "execution_id" fs x execution,
        HasText-item_as "observed_head" fs head observed,
      )
      refl
Asks-check_mutation offered fs (submit_reconcile_update_base t onto b) m
      (named, exact, ticket, read, told) =
    rw
      (
        named,
        (two_optional_iff fs "ticket_id" "onto" "rewrite_published").1 exact,
        HasText-item_as "ticket_id" fs t ticket,
        (optional_text_iff "onto" fs onto).1 read,
        (flag_iff "rewrite_published" fs b).1 told,
      )
      refl
Asks-check_mutation offered fs (submit_reconcile_resume t) m (named, exact, ticket) =
    rw (named, (exact_iff fs ("ticket_id" ∷ [])).1 exact, HasText-item_as "ticket_id" fs t ticket)
      refl
Asks-check_mutation offered fs (submit_reconcile_auto t onto) m (named, exact, ticket, read) =
    rw
      (
        named,
        (with_or_without_iff fs "ticket_id" "onto").1 exact,
        HasText-item_as "ticket_id" fs t ticket,
        (optional_text_iff "onto" fs onto).1 read,
      )
      refl
Asks-check_mutation offered fs (submit_reconcile_control a b) m (named, exact, from, to) =
    rw
      (
        named,
        (exact_iff fs ("from" ∷ "to" ∷ [])).1 exact,
        HasText-item_as "from" fs a from,
        HasText-item_as "to" fs b to,
      )
      refl

-- The checks of `dispatch_mutation` let a request make a call exactly where its method and its payload
-- ask for that call: the method is the one of the call, the payload has the required keys of the method
-- and no others but its optional ones, the texts of the call stand in it and are not empty, and its flags
-- and optional texts are what the payload says, false and None where it says nothing.
pub check_mutation_iff :
    (offered : Bool) (m : String) (fs : Fields) (c : Call)
    → (check_mutation offered m fs ≡ ok c) ↔ Asks offered m fs c
check_mutation_iff offered m fs c =
    (check_mutation-Asks offered fs c m, Asks-check_mutation offered fs c m)
