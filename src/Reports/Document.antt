-- ===== src/Reports/Document.antt =====
-- `ExecutionReport` of src/devlegate/execution_result.py and the document that it is written as.
use devlegate.Prelude.{String, Bool, not, ◌&&◌, Option, none, some, List, [], ◌∷◌, is_some}
use devlegate.Values.{
  Value, Fields, obj, arr, str, int, bool, null, field, no_fields, texts, text_or_null,
}
use devlegate.Reports.Claims.{Claim}
use devlegate.Reports.Result.{ExecutionResult, ◌+++◌}

pub record Identity : Type 0 where
  pub execution_id : String
  pub ticket_id : String
  pub code_base_head : String
  pub control_head : String
  pub execution_branch : String
  pub execution_path : String
  pub workspace_head : Option String

-- `ExecutionReport`: its first seven fields are the identity.
pub record ExecutionReport : Type 0 where
  pub identity : Identity
  pub result : ExecutionResult
  pub report_artifact : Option String
  pub report_sha256 : Option String

abbrev pub report_schema : String
report_schema = "devlegate.execution-report.v1"

abbrev pub required_fields : List String
required_fields =
    "schema" ∷ "execution_id" ∷ "ticket_id" ∷ "code_base_head" ∷ "control_head" ∷ "execution_branch"
    ∷ "execution_path" ∷ "workspace_head" ∷ "process_returncode" ∷ "transport_error"
    ∷ "transport_ok" ∷ "egress_error" ∷ "egress_ok" ∷ "worker_claim" ∷ "conclusion" ∷ "questions"
    ∷ "remaining" ∷ "reason" ∷ []

abbrev pub optional_fields : List String
optional_fields = "report_artifact" ∷ "report_sha256" ∷ "process_started" ∷ []

abbrev pub conclusions : List String
conclusions = "completed" ∷ "incomplete" ∷ "blocked" ∷ "failed" ∷ []

-- f"executions/{ticket_id}/{execution_id}.md"
abbrev pub artifact_path : String → String → String
artifact_path ticket_id execution_id =
    "executions/" +++ ticket_id +++ "/" +++ execution_id +++ ".md"

abbrev pub claim_value : Option Claim → Value
claim_value none = null
claim_value (some c) = obj (
    field "outcome" (str c.outcome) (
      field "summary" (str c.summary) (
        field "remaining" (arr (texts c.remaining)) (
          field "questions" (arr (texts c.questions))
            (field "report" (text_or_null c.report) no_fields)))))

-- `ExecutionResult.egress_ok`
abbrev pub egress_ok : ExecutionResult → Bool
egress_ok r = not (is_some r.egress_error) && is_some r.claim

unfoldable pub report_as_dict : ExecutionReport → Fields
report_as_dict r = field "schema" (str report_schema) (
    field "execution_id" (str r.identity.execution_id) (
      field "ticket_id" (str r.identity.ticket_id) (
        field "code_base_head" (str r.identity.code_base_head) (
          field "control_head" (str r.identity.control_head) (
            field "execution_branch" (str r.identity.execution_branch) (
              field "execution_path" (str r.identity.execution_path) (
                field "workspace_head" (text_or_null r.identity.workspace_head) (
                  field "process_returncode" (int r.result.process_returncode) (
                    field "process_started" (bool r.result.process_started) (
                      field "transport_error" (text_or_null r.result.transport_error) (
                        field "transport_ok" (bool (not (is_some r.result.transport_error))) (
                          field "egress_error" (text_or_null r.result.egress_error) (
                            field "egress_ok" (bool (egress_ok r.result)) (
                              field "worker_claim" (claim_value r.result.claim) (
                                field "conclusion" (str r.result.conclusion) (
                                  field "questions" (arr (texts r.result.questions)) (
                                    field "remaining" (arr (texts r.result.remaining)) (
                                      field "reason" (str r.result.reason) (
                                        field "report_artifact" (text_or_null r.report_artifact) (
                                          field "report_sha256" (text_or_null r.report_sha256)
                                            no_fields))))))))))))))))))))
