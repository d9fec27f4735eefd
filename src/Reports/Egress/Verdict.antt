-- ===== src/Reports/Egress/Verdict.antt =====
-- Which runs end with a claim.
use mathlib.Core.Path.{subst}
use devlegate.Prelude.{
  cons-ne-nil, nil-ne-cons, none-ne-some, ◌≡◌, ◌↔◌, ◌⊎◌, inl, inr, refl, sym, ap, ◌∙◌, String,
  Option, Option-cases, none, some, List, [], ◌∷◌, some_injective,
}
use devlegate.Values.{Value, Fields}
use devlegate.Reports.Claims.{Claim}
use devlegate.Reports.Egress.{fresh, report_part, consume_all, finish}
use devlegate.Reports.Egress.Laws.{
  report_parts, Accepts, claimed, failed, List-cases, consume_part-fresh, consume-quiet,
  consume-part, consume_all-failed, consume_all-quiet, consume_all-claimed,
}

-- What the parts say of the claim.
data Verdict (events : List Value) : Type 0 where
  accepted :
      (part : Fields) (c : Claim)
      → report_parts events ≡ part ∷ []
      → Accepts part c
      → finish (consume_all events fresh) ≡ (some c, none)
      → Verdict events
  rejected :
      ((part : Fields) (c : Claim) → report_parts events ≡ part ∷ [] → Accepts part c → ⊥)
      → (m : String) → finish (consume_all events fresh) ≡ (none, some m)
      → Verdict events

no_claim :
    (events : List Value)
    → consume_all events fresh ≡ fresh
    → report_parts events ≡ []
    → Verdict events
unfolding finish
no_claim events run h =
    rejected (λ part c h' a. nil-ne-cons (sym h ∙ h'))
      "exactly one devlegate_report event is required" (ap finish run)

failed_run :
    (events : List Value) (c : Option Claim) (m : String)
    → consume_all events fresh ≡ failed c m
    → ((part : Fields) (d : Claim) → report_parts events ≡ part ∷ [] → Accepts part d → ⊥)
    → Verdict events
unfolding finish
failed_run events c m run none_fits = rejected none_fits m (ap finish run)

claimed_run :
    (events : List Value) (part : Fields) (c : Claim)
    → consume_all events fresh ≡ claimed c
    → report_parts events ≡ part ∷ []
    → Accepts part c
    → Verdict events
unfolding finish
claimed_run events part c run h a = accepted part c h a (ap finish run)

cons-injective : {p q : Fields} {ps qs : List Fields} → p ∷ ps ≡ q ∷ qs → (p ≡ q) × (ps ≡ qs)
cons-injective h = (cc, cc)

-- The first report part decides, unless a second follows.
from_part :
    (event : Value) (events : List Value) (part : Fields)
    → report_part event ≡ some part
    → report_parts (event ∷ events) ≡ part ∷ report_parts events
    → Verdict (event ∷ events)
unfolding consume_all
from_part event events part e h = elim (consume_part-fresh part) [
  | inl (m, step, none_fits) ↦
      failed_run (event ∷ events) none m
        (ap (consume_all events) (consume-part event none part e ∙ step)
          ∙ consume_all-failed events none m)
        (λ q d k a. none_fits d (subst (λ z. Accepts z d) (sym (cons-injective (sym h ∙ k)).0) a))
  | inr (c, step, a) ↦ elim (List-cases (report_parts events)) [
    | inl last ↦
        claimed_run (event ∷ events) part c
          (ap (consume_all events) (consume-part event none part e ∙ step)
            ∙ consume_all-quiet events (some c) last)
          (h ∙ ap (λ l. part ∷ l) last) a
    | inr (p, ps, more) ↦
        let (m, run) = consume_all-claimed events c p ps more in
        failed_run (event ∷ events) (some c) m
          (ap (consume_all events) (consume-part event none part e ∙ step) ∙ run)
          (λ q d k x. cons-ne-nil (sym more ∙ (cons-injective (sym h ∙ k)).1))
  ]
]

skip :
    (event : Value) (events : List Value)
    → report_part event ≡ none
    → Verdict events
    → Verdict (event ∷ events)
unfolding consume_all report_parts
skip event events e (accepted part c h a run) =
    accepted part c (rw (e, report_parts) h) a
      (ap (λ q. finish (consume_all events q)) (consume-quiet event none e) ∙ run)
skip event events e (rejected none_fits m run) =
    rejected (λ part c h. none_fits part c (rw (e, report_parts) at h)) m
      (ap (λ q. finish (consume_all events q)) (consume-quiet event none e) ∙ run)

judge : (events : List Value) → Verdict events
unfolding report_parts consume_all
judge [] = no_claim [] refl refl
judge (event ∷ events) = elim (Option-cases (report_part event)) [
  | inl e ↦ skip event events e (judge events)
  | inr (part, e) ↦ from_part event events part e (rw (e, report_parts) refl)
]

-- A run ends with a claim exactly where its events hold one report of the reserved tool and no second
-- one, that report is of a completed tool call, and the claim is what its input reads as; and a run
-- that ends with no claim ends with an error.
pub finish_iff :
    (events : List Value)
    → ((c : Claim)
        → (finish (consume_all events fresh) ≡ (some c, none))
          ↔ ((part : Fields) × (report_parts events ≡ part ∷ []) × Accepts part c))
      × (((c : Claim) × (finish (consume_all events fresh) ≡ (some c, none)))
          ⊎ ((m : String) × (finish (consume_all events fresh) ≡ (none, some m))))
finish_iff events = elim (judge events) [
  | accepted part c h a run ↦ (
    (λ d. (
      (λ k. (part, h, subst (Accepts part) (some_injective (ap (λ q. q.0) (sym run ∙ k))) a)),
      (λ (q, k, b). run ∙ ap (λ z. (some z, none)) (only part c q d h k a b)),
    )),
    inl (c, run),
  )
  | rejected none_fits m run ↦ (
    (λ d. (
      (λ k. absurd (none-ne-some (ap (λ q. q.0) (sym run ∙ k)))),
      (λ (q, k, b). absurd (none_fits q d k b)),
    )),
    inr (m, run),
  )
]
  where
    only :
        (p : Fields) (c : Claim) (q : Fields) (d : Claim)
        → report_parts events ≡ p ∷ []
        → report_parts events ≡ q ∷ []
        → Accepts p c
        → Accepts q d
        → c ≡ d
    only p c q d h k a b =
        let same : p ≡ q = (cons-injective (sym h ∙ k)).0 in
        same_claim p c d a (subst (λ z. Accepts z d) (sym same) b)
      where
        same_claim : (p : Fields) (c d : Claim) → Accepts p c → Accepts p d → c ≡ d
        same_claim p c d (_, (s, e, r)) (_, (t, f, u)) = cc
