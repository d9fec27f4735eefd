-- ===== src/Reports/Report/Accepted.antt =====
-- What `from_dict` accepts, and what `build_execution_report` builds.
use mathlib.Core.Path.{subst}
use devlegate.Prelude.{
  ℕ, zero, suc, ◌≡◌, refl, sym, ap, ◌∙◌, String, Bool, true, false, ◌&&◌, Option, none, some, arith,
  str_eq, ok, contains, expect-eq-ok, bind_inversion, ok-injective, same_bool, is_some,
}
use devlegate.Values.{Value, obj, as_dict}
use devlegate.Values.Int.{ℤ, pos, negsuc}
use devlegate.Tickets.Text.{is_id}
use devlegate.Reports.Errors
use devlegate.Reports.Errors.{
  ReportError, invalid_claim, invalid_outcome, invalid_fields, claim_with_error,
}
use devlegate.Reports.Claims.{Claim, outcomes}
use devlegate.Reports.Result.{
  ExecutionResult, WorkerRun, claim_questions, claim_remaining, verdict, canonical_result,
  build_execution_result,
}
use devlegate.Reports.Report.{
  read_identity, read_artifact, read_observed, read_bound_claim, read_result, from_dict,
  long_report, map_report, build_execution_report,
}
use devlegate.Reports.Report.Consistent.{
  IsConsistent, from_dict-report_as_dict, canonical_result-eq-ok,
}
use devlegate.Reports.Report.Stages.{
  read_identity-is_id, read_artifact-is_none_or, read_bound_claim-eq-ok, read_result-eq-ok,
  artifact_of, digest_of,
}
use devlegate.Reports.Document.{Identity, ExecutionReport, artifact_path, report_as_dict}
use devlegate.Reports.Report.Parts.{HasOutcome}

module _ (signal_name : ℕ → Option String) (sha256 : String → String) where
  from_dict-IsConsistent :
      (v : Value) (r : ExecutionReport)
      → from_dict signal_name sha256 v ≡ ok r
      → IsConsistent signal_name sha256 r
  unfolding from_dict
  from_dict-IsConsistent v r h =
      let (fs, dict, h₁) = expect-eq-ok (as_dict v) Errors.not_object _ h in
      let (i, identity, h₂) = bind_inversion (read_identity fs) _ h₁ in
      let ((a, d), artifact, h₃) = bind_inversion (read_artifact i fs) _ h₂ in
      let (o, observed, h₄) = bind_inversion (read_observed fs) _ h₃ in
      let (c, claim, h₅) = bind_inversion (read_bound_claim signal_name sha256 (a, d) o fs) _ h₄ in
      let (x, result, h₆) = bind_inversion (read_result signal_name sha256 o c fs) _ h₅ in
      let (e_id, t_id) = read_identity-is_id fs i identity in
      let (outcome, bound, digested) = read_bound_claim-eq-ok signal_name sha256 a d o fs c claim in
      let (same, questions, remaining, canonical) =
        read_result-eq-ok signal_name sha256 o c fs x result in
      rw (← ok-injective h₆) (record {
        execution_id = e_id;
        ticket_id = t_id;
        outcome = subst HasOutcome same outcome;
        artifact =
            subst
              (λ z. a ≡ map_report (λ q. artifact_path i.ticket_id i.execution_id) (long_report z))
              same
              (artifact_of signal_name sha256 (artifact_path i.ticket_id i.execution_id)
                (long_report c) a (read_artifact-is_none_or i fs a d artifact)
                (bound_first c a d bound));
        digest =
            subst (λ z. d ≡ map_report sha256 (long_report z)) same
              (digest_of signal_name sha256 (long_report c) d digested (bound_second c a d bound));
        questions = questions ∙ ap claim_questions same;
        remaining = remaining ∙ ap claim_remaining same;
        canonical =
            subst
              (λ z.
                canonical_result signal_name x.process_returncode x.transport_error x.egress_error z
                  x.process_started
                ≡ ok (x.conclusion, x.reason))
              same canonical;
      })
    where
      bound_first :
          (c : Option Claim) (a d : Option String)
          → (same_bool (is_some a) (is_some (long_report c))
              && same_bool (is_some d) (is_some (long_report c)))
            ≡ true
          → same_bool (is_some a) (is_some (long_report c)) ≡ true
      bound_first c a d b = ground arith

      bound_second :
          (c : Option Claim) (a d : Option String)
          → (same_bool (is_some a) (is_some (long_report c))
              && same_bool (is_some d) (is_some (long_report c)))
            ≡ true
          → same_bool (is_some d) (is_some (long_report c)) ≡ true
      bound_second c a d b = ground arith

  -- A report that `from_dict` accepts agrees with itself: its two ids are ids, the claim's outcome is
  -- one of the three, the artifact and the digest are those of the claim's long report and absent
  -- without one, the lists are the claim's, and the conclusion and the reason are the canonical ones;
  -- and what `as_dict` writes of it `from_dict` reads back as the same report.
  pub from_dict-report_as_dict_stable :
      (v : Value) (r : ExecutionReport)
      → from_dict signal_name sha256 v ≡ ok r
      → IsConsistent signal_name sha256 r
        × (from_dict signal_name sha256 (obj (report_as_dict r)) ≡ ok r)
  from_dict-report_as_dict_stable v r h =
      let c = from_dict-IsConsistent v r h in (c, from_dict-report_as_dict signal_name sha256 r c)

  built :
      (i : Identity) (run : WorkerRun)
      → (is_some run.claim && is_some run.egress_error) ≡ false
      → (r : ExecutionReport) × (build_execution_report signal_name sha256 i run ≡ ok r)
        × (r.identity ≡ i)
        × (is_id i.execution_id ≡ true
            → is_id i.ticket_id ≡ true
            → HasOutcome run.claim
            → IsConsistent signal_name sha256 r)
  unfolding build_execution_report build_execution_result canonical_result
  built i run alone =
      let p =
        verdict signal_name run.process_returncode run.transport_error run.egress_error run.claim
          run.process_started in
      let r : ExecutionReport = record {
        identity = i;
        result = record {
          process_returncode = run.process_returncode;
          transport_error = run.transport_error;
          egress_error = run.egress_error;
          claim = run.claim;
          conclusion = p.0;
          questions = claim_questions run.claim;
          remaining = claim_remaining run.claim;
          reason = p.1;
          process_started = run.process_started;
        };
        report_artifact =
            map_report (λ q. artifact_path i.ticket_id i.execution_id) (long_report run.claim);
        report_sha256 = map_report sha256 (long_report run.claim);
      } in
      (
        r,
        rw (alone, build_execution_result, canonical_result) refl,
        refl,
        (λ e t h. record {
          execution_id = e;
          ticket_id = t;
          outcome = h;
          artifact = refl;
          digest = refl;
          questions = refl;
          remaining = refl;
          canonical = rw (alone, canonical_result) refl;
        }),
      )

  -- For a run that has not both a claim and an egress error, whose claim has one of the three outcomes,
  -- and for two ids of the form of ids, `build_execution_report` returns a report of that identity, and
  -- what `as_dict` writes of it `from_dict` accepts and reads back as that report.
  pub build_execution_report-from_dict :
      (i : Identity) (run : WorkerRun)
      → (is_some run.claim && is_some run.egress_error) ≡ false
      → HasOutcome run.claim
      → is_id i.execution_id ≡ true
      → is_id i.ticket_id ≡ true
      → (r : ExecutionReport) × (build_execution_report signal_name sha256 i run ≡ ok r)
        × (r.identity ≡ i)
        × (from_dict signal_name sha256 (obj (report_as_dict r)) ≡ ok r)
  build_execution_report-from_dict i run alone h e t =
      let (r, run_eq, same, c) = built i run alone in
      (r, run_eq, same, from_dict-report_as_dict signal_name sha256 r (c e t h))

  -- The run of a result that does not fail: the process started and ended with zero, nothing failed, and
  -- the worker claimed the conclusion.
  abbrev pub IsClean : ExecutionResult → Type 0
  IsClean r =
      (r.process_started ≡ true)
      × (r.process_returncode ≡ pos 0)
      × (r.transport_error ≡ none)
      × (r.egress_error ≡ none)
      × ((c : Claim) × (r.claim ≡ some c)
          × (r.conclusion ≡ c.outcome)
          × (contains c.outcome outcomes ≡ true))

  clean_verdict :
      (code : ℤ) (transport egress : Option String) (claim : Option Claim) (started : Bool)
      → str_eq ((verdict signal_name code transport egress claim started).0) "failed" ≡ false
      → (started ≡ true)
        × (code ≡ pos 0)
        × (transport ≡ none)
        × (egress ≡ none)
        × ((c : Claim) × (claim ≡ some c)
            × ((verdict signal_name code transport egress claim started).0 ≡ c.outcome))
  unfolding verdict
  clean_verdict code transport egress claim false h = cc
  clean_verdict (negsuc n) transport egress claim true h = cc
  clean_verdict (pos (suc n)) transport egress claim true h = cc
  clean_verdict (pos zero) (some e) egress claim true h = cc
  clean_verdict (pos zero) none (some e) claim true h = cc
  clean_verdict (pos zero) none none none true h = cc
  clean_verdict (pos zero) none none (some c) true h = (refl, refl, refl, refl, (c, refl, refl))

  -- A report that `from_dict` accepts and whose conclusion is not "failed" is of a process that started
  -- and exited with zero, without a transport error or an egress error, and its conclusion is the
  -- outcome of the worker's claim, one of the three.
  pub from_dict-IsClean :
      (v : Value) (r : ExecutionReport)
      → from_dict signal_name sha256 v ≡ ok r
      → str_eq r.result.conclusion "failed" ≡ false
      → IsClean r.result
  from_dict-IsClean v r h good =
      let c = from_dict-IsConsistent v r h in
      let x = r.result in
      let (alone, told) =
        canonical_result-eq-ok signal_name x.process_returncode x.transport_error x.egress_error
          x.claim x.process_started (x.conclusion, x.reason) c.canonical in
      let (started, code, transport, egress, (d, claim, outcome)) =
        clean_verdict x.process_returncode x.transport_error x.egress_error x.claim
          x.process_started (ap (λ q. str_eq (q.0) "failed") told ∙ good) in
      (
        started,
        code,
        transport,
        egress,
        (d, claim, sym (ap (λ q. q.0) told) ∙ outcome, subst HasOutcome claim c.outcome),
      )
