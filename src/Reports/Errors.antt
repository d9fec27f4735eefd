-- ===== src/Reports/Errors.antt =====
-- `ExecutionReportError` of src/devlegate/execution_result.py: one constructor for each message.
pub data ReportError : Type 0 where
  not_object invalid_fields unsupported_schema invalid_identity invalid_execution_id : ReportError
  invalid_ticket_id invalid_workspace_head invalid_artifact wrong_artifact invalid_digest :
      ReportError
  invalid_status invalid_provenance invalid_transport_error invalid_egress_error : ReportError
  wrong_transport_status wrong_binding wrong_digest wrong_egress_status invalid_conclusion :
      ReportError
  invalid_strings data_without_claim wrong_claim_data wrong_conclusion wrong_reason : ReportError
  invalid_claim invalid_outcome invalid_summary invalid_claim_report claim_with_error : ReportError
