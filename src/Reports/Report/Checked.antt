-- ===== src/Reports/Report/Checked.antt =====
-- What the checks of `from_dict` say of the claim and its lists.
use mathlib.Core.Path.{subst}
use devlegate.Prelude.{
  err-ne-ok, none-ne-some, ◌≡◌, refl, sym, ap, ◌∙◌, String, true, ◌&&◌, ◌||◌, Bool-cases, Option,
  Option-cases, none, some, List, [], ◌∷◌, arith, inl, inr, str_eq, eq_iff, ok, contains, same_set,
  ◌>>=◌, expect-eq-ok, require-eq-ok, bind_inversion, ok-injective,
}
use devlegate.Values.{
  Value, obj, arr, str, int, float, bool, null, as_texts, as_dict, as_text, item_as, nullable_item,
  keys,
}
use devlegate.Values.Reads.{item_as-eq-some}
use devlegate.Reports.Errors.{invalid_claim, invalid_outcome}
use devlegate.Reports.Claims.{Claim, outcomes, as_outcome, claim_fields, short_claim_fields}
use devlegate.Reports.Result.{claim_questions, claim_remaining}
use devlegate.Reports.Report.{parse_claim, claim_or_none, same_texts, check_lists}
use devlegate.Reports.Report.Parts.{HasOutcome}

as_outcome-outcomes : (v : Value) (s : String) → as_outcome v ≡ some s → contains s outcomes ≡ true
unfolding as_outcome
as_outcome-outcomes v s h = elim (Option-cases (as_text v)) [
  | inl e ↦ absurd (none-ne-some (rw (e, as_outcome) at h))
  | inr (t, e) ↦ elim (Bool-cases (contains t outcomes)) [
    | inl known ↦
        ap (λ q. contains q outcomes) (sym (same t (rw (e, as_outcome, known) at h))) ∙ known
    | inr unknown ↦ absurd (none-ne-some (rw (e, as_outcome, unknown) at h))
  ]
]
  where
    same : (t : String) → ◌≡◌ {A = Option String} (some t) (some s) → t ≡ s
    same t k = cc

parse_claim-outcomes :
    (v : Value) (c : Claim) → parse_claim v ≡ ok c → contains c.outcome outcomes ≡ true
unfolding parse_claim
parse_claim-outcomes v c h =
    let (fs, dict, h₁) = expect-eq-ok (as_dict v) invalid_claim _ h in
    let (exact, h₂) =
      require-eq-ok (same_set (keys fs) short_claim_fields || same_set (keys fs) claim_fields)
        invalid_claim _ h₁ in
    let (o, outcome, h₃) = expect-eq-ok (item_as as_outcome "outcome" fs) invalid_outcome _ h₂ in
    let (w, there, read) = item_as-eq-some as_outcome "outcome" fs o outcome in
    let (s, summary, h₄) = expect-eq-ok (item_as as_text "summary" fs) _ _ h₃ in
    let (p, report, h₅) = expect-eq-ok (nullable_item "report" fs) _ _ h₄ in
    let (m, remaining, h₆) = expect-eq-ok (item_as as_texts "remaining" fs) _ _ h₅ in
    let (q, questions, h₇) = expect-eq-ok (item_as as_texts "questions" fs) _ _ h₆ in
    rw (← ok-injective h₇) (as_outcome-outcomes w o read)

some_claim-outcomes :
    (v : Value) (c : Option Claim) → (parse_claim v >>= (λ d. ok (some d))) ≡ ok c → HasOutcome c
some_claim-outcomes v c h =
    let (d, parsed, h₁) = bind_inversion (parse_claim v) _ h in
    subst HasOutcome (ok-injective h₁) (parse_claim-outcomes v d parsed)

pub claim_or_none-HasOutcome :
    (o : Option Value) (c : Option Claim) → claim_or_none o ≡ ok c → HasOutcome c
unfolding claim_or_none
claim_or_none-HasOutcome none c h = cc
claim_or_none-HasOutcome (some null) c h = subst HasOutcome (ok-injective h) tt
claim_or_none-HasOutcome (some (obj x)) c h = some_claim-outcomes (obj x) c h
claim_or_none-HasOutcome (some (arr x)) c h = some_claim-outcomes (arr x) c h
claim_or_none-HasOutcome (some (str x)) c h = some_claim-outcomes (str x) c h
claim_or_none-HasOutcome (some (int x)) c h = some_claim-outcomes (int x) c h
claim_or_none-HasOutcome (some (float x)) c h = some_claim-outcomes (float x) c h
claim_or_none-HasOutcome (some (bool x)) c h = some_claim-outcomes (bool x) c h

same_texts-eq : (k l : List String) → same_texts k l ≡ true → k ≡ l
same_texts-eq [] [] h = refl
same_texts-eq [] (t ∷ l) h = cc
same_texts-eq (s ∷ k) [] h = cc
same_texts-eq (s ∷ k) (t ∷ l) h = λ i. (eq_iff s t).0 (first h) i ∷ same_texts-eq k l (second h) i
  where
    first : (str_eq s t && same_texts k l) ≡ true → str_eq s t ≡ true
    first h = ground arith

    second : (str_eq s t && same_texts k l) ≡ true → same_texts k l ≡ true
    second h = ground arith

pub check_lists-eq :
    (c : Option Claim) (q m : List String)
    → check_lists c q m ≡ ok tt
    → (q ≡ claim_questions c) × (m ≡ claim_remaining c)
check_lists-eq none [] [] h = (refl, refl)
check_lists-eq none [] (t ∷ l) h = cc
check_lists-eq none (s ∷ k) m h = cc
check_lists-eq (some c) q m h =
    elim (Bool-cases (same_texts q c.questions && same_texts m c.remaining)) [
      | inl e ↦
          (same_texts-eq q c.questions (ground arith), same_texts-eq m c.remaining (ground arith))
      | inr e ↦ absurd (err-ne-ok (rw e at h))
    ]
