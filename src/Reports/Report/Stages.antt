-- ===== src/Reports/Report/Stages.antt =====
-- What each stage of `from_dict` checks.
use devlegate.Prelude.{
  ℕ, ◌≡◌, refl, sym, ap, ◌∙◌, String, true, not, ◌&&◌, Option, none, some, ◌++◌, str_eq, eq_iff, ok,
  contains, subset, expect-eq-ok, require-eq-ok, bind_inversion, seq_inversion, ok-injective,
  same_bool, is_some,
}
use devlegate.Values.{
  Fields, get, as_texts, as_text, as_bool, item_as, item_is, nullable_item, keys,
}
use devlegate.Tickets.Text.{is_id}
use devlegate.Reports.Claims.{Claim}
use devlegate.Reports.Result.{ExecutionResult, claim_questions, claim_remaining, canonical_result}
use devlegate.Reports.Report.{
  Observed, read_identity, read_artifact, claim_or_none, read_bound_claim, read_result, long_report,
  map_report, is_digest, is_none_or, check_lists,
}
use devlegate.Reports.Report.Checked.{claim_or_none-HasOutcome, check_lists-eq}
use devlegate.Reports.Document.{
  Identity, artifact_path, report_schema, required_fields, optional_fields, conclusions,
}
use devlegate.Reports.Report.Parts.{HasOutcome}

pub read_identity-is_id :
    (fs : Fields) (i : Identity)
    → read_identity fs ≡ ok i
    → (is_id i.execution_id ≡ true) × (is_id i.ticket_id ≡ true)
unfolding read_identity
read_identity-is_id fs i h =
    let (exact, h₁) =
      require-eq-ok
        (subset required_fields (keys fs) && subset (keys fs) (required_fields ++ optional_fields))
        _ _ h in
    let (schema, h₂) = require-eq-ok (item_is "schema" report_schema fs) _ _ h₁ in
    let (e, execution, h₃) = expect-eq-ok (item_as as_text "execution_id" fs) _ _ h₂ in
    let (t, ticket, h₄) = expect-eq-ok (item_as as_text "ticket_id" fs) _ _ h₃ in
    let (b, base, h₅) = expect-eq-ok (item_as as_text "code_base_head" fs) _ _ h₄ in
    let (c, control, h₆) = expect-eq-ok (item_as as_text "control_head" fs) _ _ h₅ in
    let (x, branch, h₇) = expect-eq-ok (item_as as_text "execution_branch" fs) _ _ h₆ in
    let (p, path, h₈) = expect-eq-ok (item_as as_text "execution_path" fs) _ _ h₇ in
    let (r, reason, h₉) = expect-eq-ok (item_as as_text "reason" fs) _ _ h₈ in
    let (e_id, k₁) = require-eq-ok (is_id e) _ _ h₉ in
    let (t_id, k₂) = require-eq-ok (is_id t) _ _ k₁ in
    let (w, workspace, k₃) = expect-eq-ok (nullable_item "workspace_head" fs) _ _ k₂ in
    rw (← ok-injective k₃) (e_id, t_id)

pub read_artifact-is_none_or :
    (i : Identity) (fs : Fields) (a d : Option String)
    → read_artifact i fs ≡ ok (a, d)
    → is_none_or (artifact_path i.ticket_id i.execution_id) a ≡ true
unfolding read_artifact
read_artifact-is_none_or i fs a d h =
    let (b, artifact, h₁) = expect-eq-ok (nullable_item "report_artifact" fs) _ _ h in
    let (named, h₂) =
      require-eq-ok (is_none_or (artifact_path i.ticket_id i.execution_id) b) _ _ h₁ in
    let (c, digest, h₃) = expect-eq-ok (nullable_item "report_sha256" fs) _ _ h₂ in
    ap (is_none_or (artifact_path i.ticket_id i.execution_id))
      (ap (λ q. q.0) (sym (ok-injective h₃)))
    ∙ named

module _ (signal_name : ℕ → Option String) (sha256 : String → String) where
  pub read_bound_claim-eq-ok :
      (a d : Option String) (o : Observed) (fs : Fields) (c : Option Claim)
      → read_bound_claim signal_name sha256 (a, d) o fs ≡ ok c
      → HasOutcome c
        × ((same_bool (is_some a) (is_some (long_report c))
              && same_bool (is_some d) (is_some (long_report c)))
            ≡ true)
        × (is_digest signal_name sha256 (long_report c) d ≡ true)
  unfolding read_bound_claim
  read_bound_claim-eq-ok a d o fs c h =
      let (e, claim, h₁) = bind_inversion (claim_or_none (get "worker_claim" fs)) _ h in
      let (bound, h₂) =
        require-eq-ok
          (same_bool (is_some a) (is_some (long_report e))
            && same_bool (is_some d) (is_some (long_report e)))
          _ _ h₁ in
      let (digest, h₃) = require-eq-ok (is_digest signal_name sha256 (long_report e) d) _ _ h₂ in
      let (f, flag, h₄) = expect-eq-ok (item_as as_bool "egress_ok" fs) _ _ h₃ in
      let (told, h₅) =
        require-eq-ok (same_bool f (is_some e && not (is_some o.egress_error))) _ _ h₄ in
      rw (← ok-injective h₅)
        (claim_or_none-HasOutcome (get "worker_claim" fs) e claim, bound, digest)

  pub read_result-eq-ok :
      (o : Observed) (c : Option Claim) (fs : Fields) (r : ExecutionResult)
      → read_result signal_name sha256 o c fs ≡ ok r
      → (c ≡ r.claim)
        × (r.questions ≡ claim_questions c)
        × (r.remaining ≡ claim_remaining c)
        × (canonical_result signal_name r.process_returncode r.transport_error r.egress_error c
              r.process_started
            ≡ ok (r.conclusion, r.reason))
  unfolding read_result
  read_result-eq-ok o c fs r h =
      let (k, conclusion, h₁) = expect-eq-ok (item_as as_text "conclusion" fs) _ _ h in
      let (known, h₂) = require-eq-ok (contains k conclusions) _ _ h₁ in
      let (q, questions, h₃) = expect-eq-ok (item_as as_texts "questions" fs) _ _ h₂ in
      let (m, remaining, h₄) = expect-eq-ok (item_as as_texts "remaining" fs) _ _ h₃ in
      let (lists, h₅) = seq_inversion (check_lists c q m) _ h₄ in
      let ((k', r'), canonical, h₆) =
        bind_inversion
          (canonical_result signal_name o.process_returncode o.transport_error o.egress_error c
            o.process_started)
          _ h₅ in
      let (same, h₇) = require-eq-ok (str_eq k k') _ _ h₆ in
      let (t, reason, h₈) = expect-eq-ok (item_as as_text "reason" fs) _ _ h₇ in
      let (same', h₉) = require-eq-ok (str_eq t r') _ _ h₈ in
      let listed = check_lists-eq c q m lists in
      rw (← ok-injective h₉) (
        refl,
        listed.0,
        listed.1,
        canonical ∙ (λ i. ok (sym ((eq_iff k k').0 same) i, sym ((eq_iff t r').0 same') i)),
      )

  pub artifact_of :
      (path : String) (o a : Option String)
      → is_none_or path a ≡ true
      → same_bool (is_some a) (is_some o) ≡ true
      → a ≡ map_report (λ q. path) o
  artifact_of path none none n b = refl
  artifact_of path none (some s) n b = cc
  artifact_of path (some q) none n b = cc
  artifact_of path (some q) (some s) n b = ap some ((eq_iff s path).0 n)

  pub digest_of :
      (o d : Option String)
      → is_digest signal_name sha256 o d ≡ true
      → same_bool (is_some d) (is_some o) ≡ true
      → d ≡ map_report sha256 o
  digest_of none none n b = refl
  digest_of none (some s) n b = cc
  digest_of (some q) none n b = cc
  digest_of (some q) (some s) n b = ap some ((eq_iff s (sha256 q)).0 n)
