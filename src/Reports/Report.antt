-- ===== src/Reports/Report.antt =====
-- `ExecutionReport` of src/devlegate/execution_result.py: how a report is built, written as a document
-- and read back.
-- `hashlib.sha256` of a text as UTF-8, in hexadecimal, is the parameter `sha256`.
pub mod Consistent
pub mod Parts
pub mod Checked
pub mod Stages
pub mod Accepted
use devlegate.Prelude.{
  ℕ, String, Bool, true, false, not, ◌&&◌, ◌||◌, Option, none, some, List, [], ◌∷◌, ◌++◌, str_eq,
  Result, ok, err, ◌>>=◌, ◌>>◌, require, expect, subset, same_set, contains, if◌then◌else◌,
  same_bool, is_some,
}
use devlegate.Values.{
  Value, Items, Fields, obj, arr, str, int, bool, null, field, no_fields, get, keys, as_dict,
  as_text, as_int, as_bool, as_texts, texts, text_or_null, item_as, item_is, nullable_item,
  nullable_text,
}
use devlegate.Values.Int.{ℤ}
use devlegate.Tickets.Text.{is_id}
use devlegate.Reports.Errors.{
  ReportError, not_object, invalid_fields, unsupported_schema, invalid_identity,
  invalid_execution_id, invalid_ticket_id, invalid_workspace_head, invalid_artifact, wrong_artifact,
  invalid_digest, invalid_status, invalid_provenance, invalid_transport_error, invalid_egress_error,
  wrong_transport_status, wrong_binding, wrong_digest, wrong_egress_status, invalid_conclusion,
  invalid_strings, data_without_claim, wrong_claim_data, wrong_conclusion, wrong_reason,
  invalid_claim, invalid_outcome, invalid_summary, invalid_claim_report,
}
use devlegate.Reports.Claims.{Claim, as_outcome, claim_fields, short_claim_fields}
use devlegate.Reports.Result.{
  ExecutionResult, WorkerRun, ◌+++◌, claim_questions, claim_remaining, canonical_result,
  build_execution_result,
}
use devlegate.Reports.Document.{
  Identity, ExecutionReport, report_schema, required_fields, optional_fields, conclusions,
  artifact_path, claim_value, egress_ok, report_as_dict,
}

-- `_parse_claim`
unfoldable pub parse_claim : Value → Result ReportError Claim
unfolding as_dict same_set item_as as_outcome as_text as_texts nullable_item
parse_claim value = do
  fields ← expect (as_dict value) invalid_claim
  require (same_set (keys fields) short_claim_fields || same_set (keys fields) claim_fields)
      invalid_claim
  outcome ← expect (item_as as_outcome "outcome" fields) invalid_outcome
  summary ← expect (item_as as_text "summary" fields) invalid_summary
  report ← expect (nullable_item "report" fields) invalid_claim_report
  remaining ← expect (item_as as_texts "remaining" fields) invalid_strings
  questions ← expect (item_as as_texts "questions" fields) invalid_strings
  ok (record {
    outcome = outcome;
    summary = summary;
    remaining = remaining;
    questions = questions;
    report = report;
  })

-- `from_dict` up to the check of the workspace head.
unfoldable pub read_identity : Fields → Result ReportError Identity
unfolding subset item_is item_as nullable_item
read_identity fields = do
  require
      (subset required_fields (keys fields)
        && subset (keys fields) (required_fields ++ optional_fields))
      invalid_fields
  require (item_is "schema" report_schema fields) unsupported_schema
  execution_id ← expect (item_as as_text "execution_id" fields) invalid_identity
  ticket_id ← expect (item_as as_text "ticket_id" fields) invalid_identity
  code_base_head ← expect (item_as as_text "code_base_head" fields) invalid_identity
  control_head ← expect (item_as as_text "control_head" fields) invalid_identity
  execution_branch ← expect (item_as as_text "execution_branch" fields) invalid_identity
  execution_path ← expect (item_as as_text "execution_path" fields) invalid_identity
  reason ← expect (item_as as_text "reason" fields) invalid_identity
  require (is_id execution_id) invalid_execution_id
  require (is_id ticket_id) invalid_ticket_id
  workspace_head ← expect (nullable_item "workspace_head" fields) invalid_workspace_head
  ok (record {
    execution_id = execution_id;
    ticket_id = ticket_id;
    code_base_head = code_base_head;
    control_head = control_head;
    execution_branch = execution_branch;
    execution_path = execution_path;
    workspace_head = workspace_head;
  })

-- `artifact in {None, path}`
abbrev pub is_none_or : String → Option String → Bool
is_none_or path none = true
is_none_or path (some s) = str_eq s path

-- `from_dict` on the artifact and its digest.
unfoldable pub read_artifact :
    Identity → Fields → Result ReportError (Option String × Option String)
unfolding nullable_item
read_artifact i fields = do
  artifact ← expect (nullable_item "report_artifact" fields) invalid_artifact
  require (is_none_or (artifact_path i.ticket_id i.execution_id) artifact) wrong_artifact
  digest ← expect (nullable_item "report_sha256" fields) invalid_digest
  ok (artifact, digest)

-- `payload.get(key, True)`, a Boolean
unfoldable pub flag_or_true : String → Fields → Option Bool
unfolding get as_bool
flag_or_true k fs = elim (get k fs) [ none ↦ some true | some v ↦ as_bool v ]

-- What `from_dict` reads of the process.
pub record Observed : Type 0 where
  pub process_returncode : ℤ
  pub process_started : Bool
  pub transport_error : Option String
  pub egress_error : Option String

unfoldable pub read_observed : Fields → Result ReportError Observed
unfolding item_as flag_or_true nullable_item
read_observed fields = do
  code ← expect (item_as as_int "process_returncode" fields) invalid_status
  started ← expect (flag_or_true "process_started" fields) invalid_provenance
  transport ← expect (nullable_item "transport_error" fields) invalid_transport_error
  egress ← expect (nullable_item "egress_error" fields) invalid_egress_error
  transport_ok ← expect (item_as as_bool "transport_ok" fields) wrong_transport_status
  require (same_bool transport_ok (not (is_some transport))) wrong_transport_status
  ok (record {
    process_returncode = code;
    process_started = started;
    transport_error = transport;
    egress_error = egress;
  })

abbrev pub long_report : Option Claim → Option String
long_report none = none
long_report (some c) = c.report

-- `_parse_claim(value) if value is not None else None`
unfoldable pub claim_or_none : Option Value → Result ReportError (Option Claim)
claim_or_none none = err invalid_fields
claim_or_none (some null) = ok none
claim_or_none (some v) = parse_claim v >>= (λ c. ok (some c))

abbrev pub same_texts : List String → List String → Bool
same_texts [] [] = true
same_texts [] (t ∷ l) = false
same_texts (s ∷ k) [] = false
same_texts (s ∷ k) (t ∷ l) = str_eq s t && same_texts k l

-- The semantic lists are those of the claim.
abbrev pub check_lists : Option Claim → List String → List String → Result ReportError (Unit {0})
check_lists none [] [] = ok tt
check_lists none [] (t ∷ l) = err data_without_claim
check_lists none (s ∷ k) remaining = err data_without_claim
check_lists (some c) questions remaining =
    require (same_texts questions c.questions && same_texts remaining c.remaining) wrong_claim_data

-- `f(report) if report is not None else None`
abbrev pub map_report : {A B : Type 0} → (A → B) → Option A → Option B
map_report f none = none
map_report f (some a) = some (f a)

module _ (signal_name : ℕ → Option String) (sha256 : String → String) where
  abbrev pub is_digest : Option String → Option String → Bool
  is_digest none digest = true
  is_digest (some report) none = false
  is_digest (some report) (some digest) = str_eq digest (sha256 report)

  -- `from_dict` on the claim, and what binds the artifact and the egress status to it.
  unfoldable pub read_bound_claim :
      Option String × Option String → Observed → Fields → Result ReportError (Option Claim)
  unfolding get item_as
  read_bound_claim (artifact, digest) o fields = do
    claim ← claim_or_none (get "worker_claim" fields)
    require
        (same_bool (is_some artifact) (is_some (long_report claim))
          && same_bool (is_some digest) (is_some (long_report claim)))
        wrong_binding
    require (is_digest (long_report claim) digest) wrong_digest
    egress_flag ← expect (item_as as_bool "egress_ok" fields) wrong_egress_status
    require (same_bool egress_flag (is_some claim && not (is_some o.egress_error)))
        wrong_egress_status
    ok claim

  -- `from_dict` from the conclusion on.
  unfoldable pub read_result : Observed → Option Claim → Fields → Result ReportError ExecutionResult
  unfolding item_as
  read_result o claim fields = do
    conclusion ← expect (item_as as_text "conclusion" fields) invalid_conclusion
    require (contains conclusion conclusions) invalid_conclusion
    questions ← expect (item_as as_texts "questions" fields) invalid_strings
    remaining ← expect (item_as as_texts "remaining" fields) invalid_strings
    check_lists claim questions remaining
    (expected_conclusion, expected_reason) ←
        canonical_result signal_name o.process_returncode o.transport_error o.egress_error claim
          o.process_started
    require (str_eq conclusion expected_conclusion) wrong_conclusion
    reason ← expect (item_as as_text "reason" fields) wrong_reason
    require (str_eq reason expected_reason) wrong_reason
    ok (record {
      process_returncode = o.process_returncode;
      transport_error = o.transport_error;
      egress_error = o.egress_error;
      claim = claim;
      conclusion = conclusion;
      questions = questions;
      remaining = remaining;
      reason = reason;
      process_started = o.process_started;
    })

  unfoldable pub from_dict : Value → Result ReportError ExecutionReport
  unfolding as_dict
  from_dict payload = do
    fields ← expect (as_dict payload) not_object
    identity ← read_identity fields
    (artifact, digest) ← read_artifact identity fields
    observed ← read_observed fields
    claim ← read_bound_claim (artifact, digest) observed fields
    result ← read_result observed claim fields
    ok (record {
      identity = identity;
      result = result;
      report_artifact = artifact;
      report_sha256 = digest;
    })

  unfoldable pub build_execution_report : Identity → WorkerRun → Result ReportError ExecutionReport
  build_execution_report i run = do
    result ← build_execution_result signal_name run
    ok (record {
      identity = i;
      result = result;
      report_artifact =
          map_report (λ q. artifact_path i.ticket_id i.execution_id) (long_report result.claim);
      report_sha256 = map_report sha256 (long_report result.claim);
    })
