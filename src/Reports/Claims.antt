-- ===== src/Reports/Claims.antt =====
-- `WorkerClaim` and `_claim` of src/devlegate/worker_egress.py.
use devlegate.Prelude.{
  String, ◌||◌, Option, none, some, List, [], ◌∷◌, Result, ok, ◌>>=◌, ◌>>◌, require, expect,
  same_set, contains, if◌then◌else◌,
}
use devlegate.Values.{Value, keys, as_dict, as_text, as_texts, item_as, nullable_item}

pub record Claim : Type 0 where
  pub outcome : String
  pub summary : String
  pub remaining : List String
  pub questions : List String
  pub report : Option String

abbrev pub outcomes : List String
outcomes = "completed" ∷ "incomplete" ∷ "blocked" ∷ []

abbrev pub short_claim_fields : List String
short_claim_fields = "outcome" ∷ "summary" ∷ "remaining" ∷ "questions" ∷ []

abbrev pub claim_fields : List String
claim_fields = "outcome" ∷ "summary" ∷ "remaining" ∷ "questions" ∷ "report" ∷ []

-- `isinstance(outcome, str) and outcome in _OUTCOMES`, with the outcome
unfoldable pub as_outcome : Value → Option String
unfolding as_text contains
as_outcome v = elim (as_text v) [
  | none ↦ none
  | some s ↦ if contains s outcomes then some s else none
]

-- `_claim`, with the message of the error.
unfoldable pub read_claim : Value → Result String Claim
unfolding as_dict same_set item_as as_outcome as_texts nullable_item
read_claim arguments = do
  fields ← expect (as_dict arguments) "devlegate_report arguments must have exact fields"
  require (same_set (keys fields) claim_fields || same_set (keys fields) short_claim_fields)
      "devlegate_report arguments must have exact fields"
  outcome ← expect (item_as as_outcome "outcome" fields) "devlegate_report outcome is invalid"
  summary ← expect (item_as as_text "summary" fields) "devlegate_report summary must be a string"
  remaining ←
      expect (item_as as_texts "remaining" fields) "devlegate_report remaining must be list[string]"
  questions ←
      expect (item_as as_texts "questions" fields) "devlegate_report questions must be list[string]"
  report ← expect (nullable_item "report" fields) "devlegate_report report must be a string or null"
  ok (record {
    outcome = outcome;
    summary = summary;
    remaining = remaining;
    questions = questions;
    report = report;
  })
