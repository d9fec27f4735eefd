-- ===== src/Engine/Recovery.antt =====
-- What `_validate_state_invariant` of src/devlegate/runtime.py says of a reconciliation, of the failed
-- executions and of an automatic retry.
use devlegate.Prelude.{
  ℕ, String, Bool, true, false, not, ◌&&◌, ◌||◌, Option, none, some, List, [], ◌∷◌, ◌++◌, contains,
  Result, ok, err, ◌>>=◌, ◌>>◌, require, expect, same_set, if◌then◌else◌, is_some,
}
use devlegate.Values.{Value, Fields, null, field, no_fields, get, keys, as_dict, as_text, item_is}
use devlegate.Reports.Report.{from_dict}
use devlegate.Engine.{
  StateError, invalid_reconciliation, invalid_failures, invalid_automatic_retry, item_in,
  if_present, or_null, is_text, all_texts, all_filled,
}
use devlegate.Engine.Identity.{is_git_identity}
use devlegate.Reports.Document.{ExecutionReport}

abbrev pub reconciliation_fields : List String
reconciliation_fields =
    "ticket_id" ∷ "execution_id" ∷ "original_base" ∷ "observed_product" ∷ "worker_checkpoint"
    ∷ "product_remote_head" ∷ "control_head" ∷ "execution_branch" ∷ "execution_path"
    ∷ "evidence_ref" ∷ []

-- `value in {…}`
unfoldable pub text_in : List String → Value → Bool
unfolding as_text contains
text_in texts v = elim (as_text v) [ none ↦ false | some t ↦ contains t texts ]

abbrev matches_checkpoint : Option String → Fields → Bool
matches_checkpoint none r = false
matches_checkpoint (some head) r = item_is "worker_checkpoint" head r

-- The retained report is the one of the reconciliation.
unfoldable pub is_report_of : Fields → ExecutionReport → Bool
unfolding item_is
is_report_of r report =
    item_is "ticket_id" report.identity.ticket_id r
    && item_is "execution_id" report.identity.execution_id r
    && item_is "original_base" report.identity.code_base_head r
    && item_is "control_head" report.identity.control_head r
    && item_is "execution_branch" report.identity.execution_branch r
    && item_is "execution_path" report.identity.execution_path r
    && matches_checkpoint report.identity.workspace_head r

unfoldable pub check_recovery_options : Fields → Result StateError (Unit {0})
unfolding item_is if_present text_in is_git_identity
check_recovery_options r = do
  require (not (item_is "status" "resolving" r) || item_is "resolution" "resume" r)
      invalid_reconciliation
  require (if_present "resolution" (or_null (text_in ("resume" ∷ "update-base" ∷ []))) r)
      invalid_reconciliation
  require
      (if_present "resolution_class"
        (text_in ("resume" ∷ "update-base" ∷ "update-base with published-lineage rewrite" ∷ [])) r)
      invalid_reconciliation
  require (if_present "reason" is_text r) invalid_reconciliation
  require (if_present "execution_remote_head" (or_null is_git_identity) r) invalid_reconciliation

abbrev pub failure_fields : List String
failure_fields =
    "execution_id" ∷ "product_head" ∷ "remote_head" ∷ "control_head" ∷ "todo_fingerprint" ∷ "reason"
    ∷ []

-- `isinstance(value, dict) and all(isinstance(value.get(field), str) for field in …)`
unfoldable pub is_failure : Value → Bool
unfolding as_dict all_texts
is_failure v = elim (as_dict v) [ none ↦ false | some fs ↦ all_texts failure_fields fs ]

unfoldable pub all_failures : Fields → Bool
unfolding is_failure
all_failures no_fields = true
all_failures (field k v fs) = is_failure v && all_failures fs

unfoldable pub are_failures : Value → Bool
unfolding as_dict all_failures
are_failures v = elim (as_dict v) [ none ↦ false | some fs ↦ all_failures fs ]

unfoldable pub check_failures : Fields → Result StateError (Unit {0})
unfolding if_present are_failures
check_failures state = require (if_present "failed_executions" are_failures state) invalid_failures

abbrev pub retry_statuses : Bool → List String
retry_statuses true = "pending" ∷ "pending_admission" ∷ "admitted" ∷ []
retry_statuses false = "completed" ∷ "not_admitted" ∷ []

-- Whether the fields of a retry name its fresh execution.
unfoldable pub names_fresh : Fields → Bool
unfolding item_in item_is get
names_fresh r =
    item_in "status" ("pending_admission" ∷ "admitted" ∷ "completed" ∷ []) r
    || (item_is "status" "not_admitted" r && is_some (get "fresh_execution_id" r))

-- `required`
unfoldable pub retry_fields : Fields → List String
unfolding names_fresh item_is
retry_fields r =
    "status"
      ∷ "reason"
      ∷ "ticket_id"
      ∷ "stale_execution_id"
      ∷ "original_base"
      ∷ "worker_checkpoint"
      ∷ "product_head"
      ∷ "control_head"
      ∷ (if names_fresh r then "fresh_execution_id" ∷ [] else [])
    ++ (if item_is "status" "completed" r then "completed_conclusion" ∷ [] else [])

unfoldable pub is_git_item : String → Fields → Bool
unfolding get is_git_identity
is_git_item k fs = elim (get k fs) [ none ↦ false | some v ↦ is_git_identity v ]

-- The two subset checks of `validate_automatic_retry` are the comparison of the sets.
unfoldable pub check_retry_fields : Bool → Fields → Result StateError (Unit {0})
unfolding item_in retry_fields same_set keys all_filled is_git_item names_fresh item_is
check_retry_fields current r = do
  require (item_in "status" (retry_statuses current) r) invalid_automatic_retry
  require (same_set (keys r) (retry_fields r)) invalid_automatic_retry
  require (all_filled ("reason" ∷ "ticket_id" ∷ "stale_execution_id" ∷ "worker_checkpoint" ∷ []) r)
      invalid_automatic_retry
  require
      (is_git_item "original_base" r
        && is_git_item "product_head" r
        && is_git_item "control_head" r)
      invalid_automatic_retry
  require (not (names_fresh r) || all_filled ("fresh_execution_id" ∷ []) r) invalid_automatic_retry
  require (not (item_is "status" "completed" r) || all_filled ("completed_conclusion" ∷ []) r)
      invalid_automatic_retry

-- `validate_automatic_retry`
unfoldable pub check_automatic_retry : Bool → Option Value → Result StateError (Unit {0})
unfolding as_dict check_retry_fields
check_automatic_retry current none = ok tt
check_automatic_retry current (some null) = ok tt
check_automatic_retry current (some v) = do
  r ← expect (as_dict v) invalid_automatic_retry
  check_retry_fields current r

module _ (signal_name : ℕ → Option String) (sha256 : String → String) where
  abbrev is_ok : {E A : Type 0} → Result E A → Bool
  is_ok (err e) = false
  is_ok (ok a) = true

  unfoldable pub is_retained : Fields → Value → Bool
  unfolding from_dict is_report_of
  is_retained r v = elim (from_dict signal_name sha256 v) [
    | err e ↦ false
    | ok report ↦ is_report_of r report
  ]

  -- The check of a reconciliation that is not None.
  unfoldable pub check_reconciliation_fields : Fields → Result StateError (Unit {0})
  unfolding item_in all_filled check_recovery_options if_present is_retained
  check_reconciliation_fields r = do
    require (item_in "status" ("pending" ∷ "resolving" ∷ "resolved" ∷ []) r) invalid_reconciliation
    require (all_filled reconciliation_fields r) invalid_reconciliation
    check_recovery_options r
    require (if_present "execution_report" (is_retained r) r) invalid_reconciliation

  unfoldable pub check_reconciliation : Option Value → Result StateError (Unit {0})
  unfolding as_dict check_reconciliation_fields
  check_reconciliation none = ok tt
  check_reconciliation (some null) = ok tt
  check_reconciliation (some v) = do
    r ← expect (as_dict v) invalid_reconciliation
    check_reconciliation_fields r
