-- ===== src/Reports/Tests.antt =====
-- Runs of the reports on small inputs, and the theorems at such inputs.
use devlegate.Prelude.{
  ℕ, ◌≡◌, ◌↔◌, ◌⊎◌, refl, String, true, Option, none, some, [], ◌∷◌, ok, contains,
}
use devlegate.Values.{
  Value, Fields, obj, arr, str, field, no_fields, texts, keys, as_int, text_or_null, nullable_text,
  item, no_items,
}
use devlegate.Values.Int.{pos, negsuc}
use devlegate.Tickets.Text.{is_id}
use devlegate.Reports.Claims.{Claim}
use devlegate.Reports.Egress.{fresh, consume_part, consume_all, finish}
use devlegate.Reports.Egress.Laws.{report_parts, Accepts}
use devlegate.Reports.Egress.Verdict.{finish_iff}
use devlegate.Reports.Result.{WorkerRun, canonical_result, verdict}
use devlegate.Reports.Report.{
  parse_claim, read_identity, read_artifact, read_observed, claim_or_none, read_bound_claim,
  read_result, from_dict, build_execution_report,
}
use devlegate.Reports.Report.Consistent.{IsConsistent}
use devlegate.Reports.Report.Accepted.{
  from_dict-report_as_dict_stable, build_execution_report-from_dict, from_dict-IsClean, IsClean,
}
use devlegate.Reports.Document.{Identity, ExecutionReport, report_as_dict}

abbrev claim : Claim
claim = record {
  outcome = "completed";
  summary = "s";
  remaining = [];
  questions = "q" ∷ [];
  report = some "long";
}

abbrev event : Value
event = obj (
    field "type" (str "tool_use") (
      field "part"
        (obj (
          field "tool" (str "devlegate_report") (
            field "type" (str "tool") (
              field "state"
                (obj (
                  field "status" (str "completed") (
                    field "input"
                      (obj (
                        field "outcome" (str "completed") (
                          field "summary" (str "s") (
                            field "remaining" (arr no_items) (
                              field "questions" (arr (item (str "q") no_items))
                                (field "report" (str "long") no_fields))))))
                      no_fields)))
                no_fields))))
        no_fields))

finish_run : finish (consume_all (str "noise" ∷ event ∷ []) fresh) ≡ (some claim, none)
unfolding finish consume_all consume_part keys nullable_text
finish_run = refl

finish_iff_example :
    ((c : Claim)
      → (finish (consume_all (event ∷ event ∷ []) fresh) ≡ (some c, none))
        ↔ ((part : Fields) × (report_parts (event ∷ event ∷ []) ≡ part ∷ []) × Accepts part c))
    × (((c : Claim) × (finish (consume_all (event ∷ event ∷ []) fresh) ≡ (some c, none)))
        ⊎ ((m : String) × (finish (consume_all (event ∷ event ∷ []) fresh) ≡ (none, some m))))
finish_iff_example = finish_iff (event ∷ event ∷ [])

abbrev identity : Identity
identity = record {
  execution_id = "x1";
  ticket_id = "t-1";
  code_base_head = "b";
  control_head = "c";
  execution_branch = "e";
  execution_path = "p";
  workspace_head = some "w";
}

abbrev run : WorkerRun
run = record {
  process_returncode = pos 0;
  transport_error = none;
  claim = some claim;
  egress_error = none;
  process_started = true;
}

-- Stand-ins for the names of the signals and for the digest.
abbrev no_name : ℕ → Option String
no_name n = none

abbrev digest : String → String
digest s = s

abbrev report : ExecutionReport
report = record {
  identity = identity;
  result = record {
    process_returncode = pos 0;
    transport_error = none;
    egress_error = none;
    claim = some claim;
    conclusion = "completed";
    questions = "q" ∷ [];
    remaining = [];
    reason = "valid worker claim";
    process_started = true;
  };
  report_artifact = some "executions/t-1/x1.md";
  report_sha256 = some "long";
}

id_run : (is_id "x1" ≡ true) × (is_id "t-1" ≡ true)
unfolding is_id
id_run = (refl, refl)

outcome_run : contains "completed" ("completed" ∷ "incomplete" ∷ "blocked" ∷ []) ≡ true
unfolding contains
outcome_run = refl

report_run : from_dict no_name digest (obj (report_as_dict report)) ≡ ok report
unfolding from_dict report_as_dict read_identity read_artifact read_observed read_bound_claim
    read_result claim_or_none parse_claim text_or_null texts nullable_text canonical_result contains
    is_id keys as_int
report_run = refl

signal_run :
    verdict no_name (negsuc 14) none none none true
    ≡ ("failed", "worker terminated by signal 15 (UNKNOWN)")
unfolding verdict
signal_run = refl

from_dict-report_as_dict_stable_example :
    IsConsistent no_name digest report
    × (from_dict no_name digest (obj (report_as_dict report)) ≡ ok report)
from_dict-report_as_dict_stable_example =
    from_dict-report_as_dict_stable no_name digest (obj (report_as_dict report)) report report_run

build_execution_report-from_dict_example :
    (r : ExecutionReport) × (build_execution_report no_name digest identity run ≡ ok r)
    × (r.identity ≡ identity)
    × (from_dict no_name digest (obj (report_as_dict r)) ≡ ok r)
build_execution_report-from_dict_example =
    build_execution_report-from_dict no_name digest identity run refl outcome_run id_run.0 id_run.1

from_dict-IsClean_example : IsClean no_name digest report.result
from_dict-IsClean_example =
    from_dict-IsClean no_name digest (obj (report_as_dict report)) report report_run refl
