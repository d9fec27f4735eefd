-- ===== src/Reports/Report/Consistent.antt =====
-- The reports that agree with themselves, and that each of them is read back as it was written.
use devlegate.Prelude.{
  ℕ, zero, suc, Bool-cases, ok-injective, ◌≡◌, refl, sym, ap, ◌∙◌, String, Bool, true, false, not,
  ◌&&◌, Option, none, some, arith, inl, inr, eq_refl, Result, ok, err, contains, same_bool, is_some,
}
use devlegate.Values.{obj, get, as_dict, as_text, as_bool, item_as}
use devlegate.Values.Int.{ℤ, pos, negsuc}
use devlegate.Tickets.Text.{is_id}
use devlegate.Reports.Errors.{ReportError}
use devlegate.Reports.Claims.{Claim}
use devlegate.Reports.Result.{
  ExecutionResult, claim_questions, claim_remaining, verdict, canonical_result,
}
use devlegate.Reports.Report.{
  Observed, read_bound_claim, read_result, from_dict, long_report, map_report, is_digest,
  check_lists,
}
use devlegate.Reports.Document.{ExecutionReport, artifact_path, report_as_dict, conclusions}
use devlegate.Reports.Report.Parts.{
  HasOutcome, as_texts-texts, same_texts_refl, claim_or_none-claim_value,
  read_identity-report_as_dict, observed_of, read_observed-report_as_dict,
  read_artifact-report_as_dict,
}

-- What a report says agrees: its ids are ids, the artifact and the digest are those of the claim's
-- long report, the lists are the claim's, and the conclusion and the reason are the canonical ones.
pub record IsConsistent (signal_name : ℕ → Option String) (sha256 : String → String)
    (r : ExecutionReport) : Type 0 where
  pub execution_id : is_id r.identity.execution_id ≡ true
  pub ticket_id : is_id r.identity.ticket_id ≡ true
  pub outcome : HasOutcome r.result.claim
  pub artifact :
      r.report_artifact
      ≡ map_report
          (λ q. artifact_path r.identity.ticket_id r.identity.execution_id)
          (long_report r.result.claim)
  pub digest : r.report_sha256 ≡ map_report sha256 (long_report r.result.claim)
  pub questions : r.result.questions ≡ claim_questions r.result.claim
  pub remaining : r.result.remaining ≡ claim_remaining r.result.claim
  pub canonical :
      canonical_result signal_name r.result.process_returncode r.result.transport_error
        r.result.egress_error r.result.claim r.result.process_started
      ≡ ok (r.result.conclusion, r.result.reason)

module _ (signal_name : ℕ → Option String) where
  verdict-conclusions :
      (code : ℤ) (transport egress : Option String) (claim : Option Claim) (started : Bool)
      → HasOutcome claim
      → contains (verdict signal_name code transport egress claim started).0 conclusions ≡ true
  unfolding verdict contains
  verdict-conclusions code transport egress claim false h = refl
  verdict-conclusions (negsuc n) transport egress claim true h = refl
  verdict-conclusions (pos (suc n)) transport egress claim true h = refl
  verdict-conclusions (pos zero) (some e) egress claim true h = refl
  verdict-conclusions (pos zero) none (some e) claim true h = refl
  verdict-conclusions (pos zero) none none none true h = refl
  verdict-conclusions (pos zero) none none (some c) true h = ground arith

  pub canonical_result-eq-ok :
      (code : ℤ) (transport egress : Option String) (claim : Option Claim) (started : Bool)
      (p : String × String)
      → canonical_result signal_name code transport egress claim started ≡ ok p
      → ((is_some claim && is_some egress) ≡ false)
        × (verdict signal_name code transport egress claim started ≡ p)
  unfolding canonical_result
  canonical_result-eq-ok code transport egress claim started p h =
      elim (Bool-cases (is_some claim && is_some egress)) [
        | inl e ↦ absurd (refused (rw (e, canonical_result) at h))
        | inr e ↦ (e, ok-injective (rw (e, canonical_result) at h))
      ]
    where
      refused :
          {e : ReportError} → ◌≡◌ {A = Result ReportError (String × String)} (err e) (ok p) → ⊥
      refused k = cc

  pub canonical-conclusions :
      (r : ExecutionResult)
      → HasOutcome r.claim
      → canonical_result signal_name r.process_returncode r.transport_error r.egress_error r.claim
          r.process_started
        ≡ ok (r.conclusion, r.reason)
      → contains r.conclusion conclusions ≡ true
  canonical-conclusions r h e =
      let (alone, told) =
        canonical_result-eq-ok r.process_returncode r.transport_error r.egress_error r.claim
          r.process_started _ e in
      ap (λ q. contains (q.0) conclusions) (sym told)
      ∙ verdict-conclusions r.process_returncode r.transport_error r.egress_error r.claim
          r.process_started h

  check_lists-claim :
      (c : Option Claim) → check_lists c (claim_questions c) (claim_remaining c) ≡ ok tt
  check_lists-claim none = refl
  check_lists-claim (some c) = rw (same_texts_refl c.questions, same_texts_refl c.remaining) refl

  module _ (sha256 : String → String) where
    bound :
        (f g : String → String) (o a d : Option String)
        → a ≡ map_report f o
        → d ≡ map_report g o
        → (same_bool (is_some a) (is_some o) && same_bool (is_some d) (is_some o)) ≡ true
    bound f g none a d h k = rw (h, k) refl
    bound f g (some s) a d h k = rw (h, k) refl

    digested :
        (o d : Option String) → d ≡ map_report sha256 o → is_digest signal_name sha256 o d ≡ true
    digested none d h = refl
    digested (some s) d h = rw h (eq_refl (sha256 s))

    flagged : (a b : Bool) → same_bool (not a && b) (b && not a) ≡ true
    flagged true true = refl
    flagged true false = refl
    flagged false true = refl
    flagged false false = refl

    read_bound_claim-report_as_dict :
        (r : ExecutionReport) (o : Observed)
        → IsConsistent signal_name sha256 r
        → o.egress_error ≡ r.result.egress_error
        → read_bound_claim signal_name sha256
            (r.report_artifact, r.report_sha256)
            o
            (report_as_dict r)
          ≡ ok r.result.claim
    unfolding read_bound_claim report_as_dict get item_as as_bool
    read_bound_claim-report_as_dict r o c e =
        rw
          (
            claim_or_none-claim_value r.result.claim c.outcome,
            e,
            bound (λ q. artifact_path r.identity.ticket_id r.identity.execution_id) sha256
                (long_report r.result.claim) r.report_artifact r.report_sha256 c.artifact c.digest,
            digested (long_report r.result.claim) r.report_sha256 c.digest,
            flagged (is_some r.result.egress_error) (is_some r.result.claim),
          )
          refl

    read_result-report_as_dict :
        (r : ExecutionReport) (o : Observed)
        → IsConsistent signal_name sha256 r
        → o ≡ observed_of r
        → read_result signal_name sha256 o r.result.claim (report_as_dict r) ≡ ok r.result
    unfolding read_result report_as_dict get item_as as_text
    read_result-report_as_dict r o c e =
        rw
          (
            e,
            canonical-conclusions r.result c.outcome c.canonical,
            as_texts-texts r.result.questions,
            as_texts-texts r.result.remaining,
            lists,
            c.canonical,
            eq_refl r.result.conclusion,
            eq_refl r.result.reason,
          )
          refl
      where
        lists : check_lists r.result.claim r.result.questions r.result.remaining ≡ ok tt
        lists = rw (c.questions, c.remaining) (check_lists-claim r.result.claim)

    pub from_dict-report_as_dict :
        (r : ExecutionReport)
        → IsConsistent signal_name sha256 r
        → from_dict signal_name sha256 (obj (report_as_dict r)) ≡ ok r
    unfolding from_dict as_dict
    from_dict-report_as_dict r c =
        rw
          (
            read_identity-report_as_dict r c.execution_id c.ticket_id,
            read_artifact-report_as_dict r sha256 c.artifact,
            read_observed-report_as_dict r,
            read_bound_claim-report_as_dict r (observed_of r) c refl,
            read_result-report_as_dict r (observed_of r) c refl,
          )
          refl
