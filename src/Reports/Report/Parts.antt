-- ===== src/Reports/Report/Parts.antt =====
-- The parts of a report's document are read back as they were written.
use devlegate.Prelude.{
  ◌≡◌, refl, String, Bool, true, false, not, Option, none, some, List, [], ◌∷◌, eq_refl, ok,
  contains, subset, same_set, same_bool, is_some,
}
use devlegate.Values.{
  arr, get, texts, items_texts, as_texts, as_dict, text_or_null, nullable_text, as_text, as_int,
  as_bool, item_as, item_is, nullable_item, keys,
}
use devlegate.Tickets.Text.{is_id}
use devlegate.Reports.Claims.{Claim, outcomes, as_outcome}
use devlegate.Reports.Report.{
  Observed, parse_claim, read_identity, read_artifact, read_observed, claim_or_none, long_report,
  map_report, same_texts, is_none_or, flag_or_true,
}
use devlegate.Reports.Document.{ExecutionReport, artifact_path, claim_value, report_as_dict}

-- The outcome of a claim, where there is one, is one of the three.
abbrev pub HasOutcome : Option Claim → Type 0
HasOutcome none = Unit
HasOutcome (some c) = contains c.outcome outcomes ≡ true

nullable_text-text_or_null : (o : Option String) → nullable_text (text_or_null o) ≡ some o
unfolding nullable_text text_or_null
nullable_text-text_or_null none = refl
nullable_text-text_or_null (some s) = refl

items_texts-texts : (l : List String) → items_texts (texts l) ≡ some l
unfolding items_texts texts as_text
items_texts-texts [] = refl
items_texts-texts (s ∷ l) = rw (items_texts-texts l) refl

pub as_texts-texts : (l : List String) → as_texts (arr (texts l)) ≡ some l
unfolding as_texts
as_texts-texts l = items_texts-texts l

pub same_texts_refl : (l : List String) → same_texts l l ≡ true
same_texts_refl [] = refl
same_texts_refl (s ∷ l) = rw (eq_refl s, same_texts_refl l) refl

same_bool_refl : (b : Bool) → same_bool b b ≡ true
same_bool_refl true = refl
same_bool_refl false = refl

parse_claim-claim_value :
    (c : Claim) → contains c.outcome outcomes ≡ true → parse_claim (claim_value (some c)) ≡ ok c
unfolding parse_claim as_dict same_set keys item_as get as_outcome as_text nullable_item
parse_claim-claim_value c h =
    rw
      (
        h,
        nullable_text-text_or_null c.report,
        as_texts-texts c.remaining,
        as_texts-texts c.questions,
      )
      refl

pub claim_or_none-claim_value :
    (c : Option Claim) → HasOutcome c → claim_or_none (some (claim_value c)) ≡ ok c
unfolding claim_or_none
claim_or_none-claim_value none h = refl
claim_or_none-claim_value (some c) h = rw (parse_claim-claim_value c h) refl

pub read_identity-report_as_dict :
    (r : ExecutionReport)
    → is_id r.identity.execution_id ≡ true
    → is_id r.identity.ticket_id ≡ true
    → read_identity (report_as_dict r) ≡ ok r.identity
unfolding read_identity report_as_dict subset keys item_is item_as get as_text nullable_item
read_identity-report_as_dict r e t =
    rw (e, t, nullable_text-text_or_null r.identity.workspace_head) refl

abbrev pub observed_of : ExecutionReport → Observed
observed_of r = record {
  process_returncode = r.result.process_returncode;
  process_started = r.result.process_started;
  transport_error = r.result.transport_error;
  egress_error = r.result.egress_error;
}

pub read_observed-report_as_dict :
    (r : ExecutionReport) → read_observed (report_as_dict r) ≡ ok (observed_of r)
unfolding read_observed report_as_dict item_as get as_int as_bool nullable_item flag_or_true
read_observed-report_as_dict r =
    rw
      (
        nullable_text-text_or_null r.result.transport_error,
        nullable_text-text_or_null r.result.egress_error,
        same_bool_refl (not (is_some r.result.transport_error)),
      )
      refl

pub read_artifact-report_as_dict :
    (r : ExecutionReport) (f : String → String)
    → r.report_artifact
      ≡ map_report
          (λ q. artifact_path r.identity.ticket_id r.identity.execution_id)
          (long_report r.result.claim)
    → read_artifact r.identity (report_as_dict r) ≡ ok (r.report_artifact, r.report_sha256)
unfolding read_artifact report_as_dict nullable_item get
read_artifact-report_as_dict r f h =
    rw
      (
        nullable_text-text_or_null r.report_artifact,
        nullable_text-text_or_null r.report_sha256,
        named (long_report r.result.claim) h,
      )
      refl
  where
    named :
        (o : Option String)
        → r.report_artifact
          ≡ map_report (λ q. artifact_path r.identity.ticket_id r.identity.execution_id) o
        → is_none_or (artifact_path r.identity.ticket_id r.identity.execution_id) r.report_artifact
          ≡ true
    named none h = rw h refl
    named (some q) h = rw h (eq_refl (artifact_path r.identity.ticket_id r.identity.execution_id))
