-- ===== src/Ipc/Dispatch/Asked.antt =====
-- What a request asks for, and that the checks of `dispatch_mutation` let it make no other call.
use mathlib.Core.Path.{subst}
use devlegate.Prelude.{
  err-ne-ok, ◌≡◌, ◌⊎◌, inl, inr, refl, sym, String, Bool, true, ◌||◌, Bool-cases, [], ◌∷◌, arith,
  eq_iff, str_eq, if◌then◌else◌, Result, ok, err, ◌>>=◌, expect, expect-eq-ok, require-eq-ok,
  ok-injective, subset,
}
use devlegate.Values.{Fields, keys, as_nonempty_text}
use devlegate.Ipc.Errors.{ProtocolError, error, invalid_request, unknown_method}
use devlegate.Ipc.Dispatch.{
  flag, optional_text, check_lifecycle, check_retry, check_drop, check_recover, check_update_base,
  check_resume, check_auto, check_control, check_mutation,
}
use devlegate.Values.{item_as}
use devlegate.Values.Reads.{HasText, item_as-nonempty_text}
use devlegate.Ipc.Dispatch.Shapes.{IsFlag, IsOptionalText, flag_iff, optional_text_iff}
use devlegate.Ipc.Calls.{
  Call, lifecycle, submit_retry, submit_drop, submit_recover, submit_reconcile_update_base,
  submit_reconcile_resume, submit_reconcile_auto, submit_reconcile_control,
}
use devlegate.Ipc.Dispatch.KeySets.{
  HasKeys, exact_iff, force_iff, one_optional_iff, with_or_without_iff, two_optional_iff,
}

-- The method and the payload of a request ask for a call: the payload has the required keys of the
-- method and no others but its optional ones, the texts of the call are in it and not empty, and the
-- flags and the optional texts of the call are what it says of them, false and None where it says
-- nothing.
unfoldable pub Asks : Bool → String → Fields → Call → Type 0
Asks offered m fs (lifecycle n force) =
    (m ≡ n)
    × ((m ≡ "stop") ⊎ (m ≡ "restart"))
    × HasKeys fs [] ("force" ∷ [])
    × (offered ≡ true)
    × IsFlag "force" fs force
Asks offered m fs (submit_retry t force) =
    (m ≡ "retry")
    × HasKeys fs ("ticket_id" ∷ []) ("force" ∷ [])
    × HasText "ticket_id" fs t
    × IsFlag "force" fs force
Asks offered m fs (submit_drop t x) =
    (m ≡ "drop")
    × HasKeys fs ("ticket_id" ∷ "execution_id" ∷ []) []
    × HasText "ticket_id" fs t
    × HasText "execution_id" fs x
Asks offered m fs (submit_recover t x head) =
    (m ≡ "recover")
    × HasKeys fs ("ticket_id" ∷ "execution_id" ∷ "observed_head" ∷ []) []
    × HasText "ticket_id" fs t
    × HasText "execution_id" fs x
    × HasText "observed_head" fs head
Asks offered m fs (submit_reconcile_update_base t onto rewrite) =
    (m ≡ "reconcile-update-base")
    × HasKeys fs ("ticket_id" ∷ []) ("onto" ∷ "rewrite_published" ∷ [])
    × HasText "ticket_id" fs t
    × IsOptionalText "onto" fs onto
    × IsFlag "rewrite_published" fs rewrite
Asks offered m fs (submit_reconcile_resume t) =
    (m ≡ "reconcile-resume") × HasKeys fs ("ticket_id" ∷ []) [] × HasText "ticket_id" fs t
Asks offered m fs (submit_reconcile_auto t onto) =
    (m ≡ "reconcile-auto")
    × HasKeys fs ("ticket_id" ∷ []) ("onto" ∷ [])
    × HasText "ticket_id" fs t
    × IsOptionalText "onto" fs onto
Asks offered m fs (submit_reconcile_control a b) =
    (m ≡ "reconcile-control")
    × HasKeys fs ("from" ∷ "to" ∷ []) []
    × HasText "from" fs a
    × HasText "to" fs b

-- A check of a text, taken apart.
text_at-eq-ok :
    (k : String) (fs : Fields) (next : String → Result ProtocolError Call) {c : Call}
    → (expect (item_as as_nonempty_text k fs) (error invalid_request) >>= next) ≡ ok c
    → (s : String) × HasText k fs s × (next s ≡ ok c)
text_at-eq-ok k fs next h =
    let (s, read, rest) =
      expect-eq-ok (item_as as_nonempty_text k fs) (error invalid_request) next h in
    (s, item_as-nonempty_text k fs s read, rest)

module _ (offered : Bool) (fs : Fields) (c : Call) where
  returned :
      (m : String) (d : Call)
      → ◌≡◌ {A = Result ProtocolError Call} (ok d) (ok c)
      → Asks offered m fs d
      → Asks offered m fs c
  returned m d h asks = subst (λ q. Asks offered m fs q) (ok-injective h) asks

  check_lifecycle-Asks :
      (m : String)
      → (m ≡ "stop") ⊎ (m ≡ "restart")
      → check_lifecycle offered m fs ≡ ok c
      → Asks offered m fs c
  unfolding check_lifecycle Asks
  check_lifecycle-Asks m named h =
      let (exact, h₁) =
        require-eq-ok (subset (keys fs) ("force" ∷ [])) (error invalid_request) _ h in
      let (given, h₂) = require-eq-ok offered (error unknown_method) _ h₁ in
      let (force, read, h₃) = expect-eq-ok (flag "force" fs) (error invalid_request) _ h₂ in
      rw (← ok-injective h₃)
        (refl, named, (force_iff fs).0 exact, given, (flag_iff "force" fs force).0 read)

  check_retry-Asks : check_retry fs ≡ ok c → Asks offered "retry" fs c
  unfolding check_retry Asks
  check_retry-Asks h =
      let (exact, h₁) = require-eq-ok _ (error invalid_request) _ h in
      let (t, ticket, h₂) = text_at-eq-ok "ticket_id" fs _ h₁ in
      let (force, read, h₃) = expect-eq-ok (flag "force" fs) (error invalid_request) _ h₂ in
      returned "retry" (submit_retry t force) h₃ (
        refl,
        (one_optional_iff fs "ticket_id" "force").0 exact,
        ticket,
        (flag_iff "force" fs force).0 read,
      )

  check_drop-Asks : check_drop fs ≡ ok c → Asks offered "drop" fs c
  unfolding check_drop Asks
  check_drop-Asks h =
      let (exact, h₁) = require-eq-ok _ (error invalid_request) _ h in
      let (t, ticket, h₂) = text_at-eq-ok "ticket_id" fs _ h₁ in
      let (x, execution, h₃) = text_at-eq-ok "execution_id" fs _ h₂ in
      returned "drop" (submit_drop t x) h₃ (refl, (exact_iff fs _).0 exact, ticket, execution)

  check_recover-Asks : check_recover fs ≡ ok c → Asks offered "recover" fs c
  unfolding check_recover Asks
  check_recover-Asks h =
      let (exact, h₁) = require-eq-ok _ (error invalid_request) _ h in
      let (t, ticket, h₂) = text_at-eq-ok "ticket_id" fs _ h₁ in
      let (x, execution, h₃) = text_at-eq-ok "execution_id" fs _ h₂ in
      let (head, observed, h₄) = text_at-eq-ok "observed_head" fs _ h₃ in
      returned "recover" (submit_recover t x head) h₄
        (refl, (exact_iff fs _).0 exact, ticket, execution, observed)

  check_update_base-Asks : check_update_base fs ≡ ok c → Asks offered "reconcile-update-base" fs c
  unfolding check_update_base Asks
  check_update_base-Asks h =
      let (exact, h₁) = require-eq-ok _ (error invalid_request) _ h in
      let (t, ticket, h₂) = text_at-eq-ok "ticket_id" fs _ h₁ in
      let (onto, read, h₃) = expect-eq-ok (optional_text "onto" fs) (error invalid_request) _ h₂ in
      let (rewrite, told, h₄) =
        expect-eq-ok (flag "rewrite_published" fs) (error invalid_request) _ h₃ in
      returned "reconcile-update-base" (submit_reconcile_update_base t onto rewrite) h₄ (
        refl,
        (two_optional_iff fs "ticket_id" "onto" "rewrite_published").0 exact,
        ticket,
        (optional_text_iff "onto" fs onto).0 read,
        (flag_iff "rewrite_published" fs rewrite).0 told,
      )

  check_resume-Asks : check_resume fs ≡ ok c → Asks offered "reconcile-resume" fs c
  unfolding check_resume Asks
  check_resume-Asks h =
      let (exact, h₁) = require-eq-ok _ (error invalid_request) _ h in
      let (t, ticket, h₂) = text_at-eq-ok "ticket_id" fs _ h₁ in
      returned "reconcile-resume" (submit_reconcile_resume t) h₂
        (refl, (exact_iff fs _).0 exact, ticket)

  check_auto-Asks : check_auto fs ≡ ok c → Asks offered "reconcile-auto" fs c
  unfolding check_auto Asks
  check_auto-Asks h =
      let (exact, h₁) = require-eq-ok _ (error invalid_request) _ h in
      let (t, ticket, h₂) = text_at-eq-ok "ticket_id" fs _ h₁ in
      let (onto, read, h₃) = expect-eq-ok (optional_text "onto" fs) (error invalid_request) _ h₂ in
      returned "reconcile-auto" (submit_reconcile_auto t onto) h₃ (
        refl,
        (with_or_without_iff fs "ticket_id" "onto").0 exact,
        ticket,
        (optional_text_iff "onto" fs onto).0 read,
      )

  check_control-Asks : check_control fs ≡ ok c → Asks offered "reconcile-control" fs c
  unfolding check_control Asks
  check_control-Asks h =
      let (exact, h₁) = require-eq-ok _ (error invalid_request) _ h in
      let (a, from, h₂) = text_at-eq-ok "from" fs _ h₁ in
      let (b, to, h₃) = text_at-eq-ok "to" fs _ h₂ in
      returned "reconcile-control" (submit_reconcile_control a b) h₃
        (refl, (exact_iff fs _).0 exact, from, to)

  -- One test of the method.
  by_method :
      (m n : String) (x y : Result ProtocolError Call)
      → (x ≡ ok c → Asks offered n fs c)
      → (y ≡ ok c → Asks offered m fs c)
      → (if str_eq m n then x else y) ≡ ok c
      → Asks offered m fs c
  by_method m n x y here there h = elim (Bool-cases (str_eq m n)) [
    | inl e ↦ subst (λ q. Asks offered q fs c) (sym ((eq_iff m n).0 e)) (here (rw e at h))
    | inr e ↦ there (rw e at h)
  ]

  pub check_mutation-Asks : (m : String) → check_mutation offered m fs ≡ ok c → Asks offered m fs c
  unfolding check_mutation
  check_mutation-Asks m h = elim (Bool-cases (str_eq m "stop" || str_eq m "restart")) [
    | inl e ↦ check_lifecycle-Asks m (either e) (rw e at h)
    | inr e ↦
        by_method m "retry" (check_retry fs) _ check_retry-Asks
          (by_method m "drop" (check_drop fs) _ check_drop-Asks (
            by_method m "recover" (check_recover fs) _ check_recover-Asks (
              by_method m "reconcile-update-base" (check_update_base fs) _ check_update_base-Asks (
                by_method m "reconcile-resume" (check_resume fs) _ check_resume-Asks (
                  by_method m "reconcile-auto" (check_auto fs) _ check_auto-Asks (
                    by_method m "reconcile-control" (check_control fs) (err (error unknown_method))
                      check_control-Asks (λ k. absurd (err-ne-ok k))))))))
          (rw e at h)
  ]
    where
      either : (str_eq m "stop" || str_eq m "restart") ≡ true → (m ≡ "stop") ⊎ (m ≡ "restart")
      either e = ground (arith, eq_iff m "stop", eq_iff m "restart")
