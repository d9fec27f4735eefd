-- ===== src/Reports/Egress/Laws.antt =====
-- What one report part does to the parser, and what its state keeps.
use devlegate.Prelude.{
  cons-ne-nil, Result-cases, ◌≡◌, ◌⊎◌, inl, inr, refl, ap, ◌∙◌, String, true, false, Bool-cases,
  Option, Option-cases, none, some, List, [], ◌∷◌, ok, err,
}
use devlegate.Values.{Value, Fields, item_is}
use devlegate.Reports.Claims.{Claim, read_claim}
use devlegate.Reports.Egress.{
  Egress, fresh, report_part, completed_state, input, consume_part, consume, consume_all,
}

-- The report parts of the events, in their order.
unfoldable pub report_parts : List Value → List Fields
unfolding report_part
report_parts [] = []
report_parts (event ∷ events) =
    let rest = report_parts events in
    elim (report_part event) [ none ↦ rest | some part ↦ part ∷ rest ]

-- A report part of a completed tool call, whose input is the claim.
abbrev pub Accepts : Fields → Claim → Type 0
Accepts part c =
    (item_is "type" "tool" part ≡ true)
    × ((state : Fields) × (completed_state part ≡ some state) × (read_claim (input state) ≡ ok c))

abbrev pub claimed : Claim → Egress
claimed c = record { claim = some c; error = none }

abbrev pub failed : Option Claim → String → Egress
failed c message = record { claim = c; error = some message }

pub List-cases : {A : Type 0} (l : List A) → (l ≡ []) ⊎ ((a : A) × (rest : List A) × (l ≡ a ∷ rest))
List-cases [] = inl refl
List-cases (a ∷ rest) = inr (a, rest, refl)

pub consume_part-fresh :
    (part : Fields)
    → ((m : String) × (consume_part part fresh ≡ failed none m)
        × ((c : Claim) → Accepts part c → ⊥))
      ⊎ ((c : Claim) × (consume_part part fresh ≡ claimed c) × Accepts part c)
unfolding consume_part
consume_part-fresh part = elim (Bool-cases (item_is "type" "tool" part)) [
  | inr e ↦
      inl ("devlegate_report event has invalid tool type", rw e refl, (λ c a. wrong_type e a.0))
  | inl e ↦ elim (Option-cases (completed_state part)) [
    | inl e' ↦
        inl (
          "devlegate_report event is not completed",
          rw (e, e') refl,
          (λ c a. wrong_state e' a.1.1),
        )
    | inr (state, e') ↦ elim (Result-cases (read_claim (input state))) [
      | inl (m, e'') ↦
          inl (m, rw (e, e', e'') refl, (λ c a. wrong_claim state m e' e'' a.1.0 c a.1.1 a.1.2))
      | inr (c, e'') ↦ inr (c, rw (e, e', e'') refl, (e, (state, e', e'')))
    ]
  ]
]
  where
    wrong_type : item_is "type" "tool" part ≡ false → item_is "type" "tool" part ≡ true → ⊥
    wrong_type e a = cc

    wrong_state :
        {state : Fields} → completed_state part ≡ none → completed_state part ≡ some state → ⊥
    wrong_state e a = cc

    wrong_claim :
        (state : Fields) (m : String)
        → completed_state part ≡ some state
        → read_claim (input state) ≡ err m
        → (state' : Fields) (c : Claim) → completed_state part ≡ some state'
        → read_claim (input state') ≡ ok c
        → ⊥
    wrong_claim state m e e' state' c a a' = cc

consume_part-claimed :
    (part : Fields) (c : Claim) → (m : String) × (consume_part part (claimed c) ≡ failed (some c) m)
unfolding consume_part
consume_part-claimed part c = elim (Bool-cases (item_is "type" "tool" part)) [
  | inr e ↦ ("devlegate_report event has invalid tool type", rw e refl)
  | inl e ↦ elim (Option-cases (completed_state part)) [
    | inl e' ↦ ("devlegate_report event is not completed", rw (e, e') refl)
    | inr (state, e') ↦ ("duplicate devlegate_report event", rw (e, e') refl)
  ]
]

abbrev pub open_with : Option Claim → Egress
open_with c = record { claim = c; error = none }

pub consume-quiet :
    (event : Value) (c : Option Claim)
    → report_part event ≡ none
    → consume event (open_with c) ≡ open_with c
unfolding consume
consume-quiet event c h = rw (h, consume) refl

pub consume-part :
    (event : Value) (c : Option Claim) (part : Fields)
    → report_part event ≡ some part
    → consume event (open_with c) ≡ consume_part part (open_with c)
unfolding consume
consume-part event c part h = rw (h, consume) refl

-- An error stays.
pub consume_all-failed :
    (events : List Value) (c : Option Claim) (m : String)
    → consume_all events (failed c m) ≡ failed c m
unfolding consume_all consume
consume_all-failed [] c m = refl
consume_all-failed (event ∷ events) c m = consume_all-failed events c m

-- The events that are no report change nothing.
pub consume_all-quiet :
    (events : List Value) (c : Option Claim)
    → report_parts events ≡ []
    → consume_all events (open_with c) ≡ open_with c
unfolding consume_all report_parts
consume_all-quiet [] c h = refl
consume_all-quiet (event ∷ events) c h = elim (Option-cases (report_part event)) [
  | inl e ↦
      ap (consume_all events) (consume-quiet event c e)
      ∙ consume_all-quiet events c (rw (e, report_parts) at h)
  | inr (part, e) ↦ absurd (cons-ne-nil (rw (e, report_parts) at h))
]

-- A second report part is an error.
pub consume_all-claimed :
    (events : List Value) (c : Claim) (part : Fields) (rest : List Fields)
    → report_parts events ≡ part ∷ rest
    → (m : String) × (consume_all events (claimed c) ≡ failed (some c) m)
unfolding consume_all report_parts
consume_all-claimed [] c part rest h = cc
consume_all-claimed (event ∷ events) c part rest h = elim (Option-cases (report_part event)) [
  | inl e ↦
      let (m, run) = consume_all-claimed events c part rest (rw (e, report_parts) at h) in
      (m, ap (consume_all events) (consume-quiet event (some c) e) ∙ run)
  | inr (p, e) ↦
      let (m, step) = consume_part-claimed p c in
      (
        m,
        ap (consume_all events) (consume-part event (some c) p e ∙ step)
            ∙ consume_all-failed events (some c) m,
      )
]
