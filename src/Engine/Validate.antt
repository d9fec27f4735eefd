-- ===== src/Engine/Validate.antt =====
-- `_validate_state_invariant` of src/devlegate/runtime.py.
pub mod Laws
pub mod Parts
use devlegate.Prelude.{
  ℕ, String, Bool, true, false, not, ◌&&◌, ◌||◌, Option, none, some, List, [], ◌∷◌, str_eq,
  contains, Result, ok, err, ◌>>=◌, ◌>>◌, require, expect, same_set, if◌then◌else◌, is_some,
}
use devlegate.Values.{Value, Fields, null, get, keys, as_dict, as_text, item_as, item_is}
use devlegate.Reports.Report.{from_dict}
use devlegate.Engine.{
  StateError, invalid_phase, invalid_interruption, invalid_manual_retry, active_worker,
  invalid_integration, incomplete_coordinates, incomplete_ticket, incomplete_control, invalid_stage,
  missing_worker, retained_worker, invalid_pending_report, premature_checkpoint, missing_checkpoint,
  incomplete_binding, invalid_remote_head, item_in, if_present, or_null, absent_or, is_filled,
  all_texts, all_filled,
}
use devlegate.Engine.Identity.{WorkerIdentity, worker_identity}
use devlegate.Engine.Recovery.{
  text_in, is_git_item, check_reconciliation, check_failures, check_automatic_retry,
}
use devlegate.Reports.Document.{ExecutionReport}

abbrev pub phases : List String
phases = "idle" ∷ "merge_pending" ∷ "agent_pending" ∷ "agent_running" ∷ []

unfoldable pub check_interruption : Fields → Result StateError (Unit {0})
unfolding if_present text_in
check_interruption state =
    require
      (absent_or (text_in ("operator_abort" ∷ "service_shutdown" ∷ "process_loss" ∷ []))
        "execution_interruption_kind" state)
      invalid_interruption

abbrev pub marker_fields : List String
marker_fields = "ticket_id" ∷ "execution_id" ∷ "generation" ∷ "request_id" ∷ []

unfoldable pub is_marker : Value → Bool
unfolding as_dict same_set keys all_filled
is_marker v = elim (as_dict v) [
  | none ↦ false
  | some fs ↦ same_set (keys fs) marker_fields && all_filled marker_fields fs
]

unfoldable pub check_manual_retry : Fields → Result StateError (Unit {0})
unfolding if_present is_marker
check_manual_retry state =
    require (absent_or is_marker "manual_retry_required" state) invalid_manual_retry

unfoldable pub is_integration : Value → Bool
unfolding as_dict same_set keys all_filled is_git_item
is_integration v = elim (as_dict v) [
  | none ↦ false
  | some fs ↦
      same_set (keys fs) ("ticket_id" ∷ "checkpoint" ∷ "control_head" ∷ [])
      && all_filled ("ticket_id" ∷ []) fs
      && is_git_item "checkpoint" fs
      && is_git_item "control_head" fs
]

-- An accepted integration is there only while the phase is idle.
unfoldable pub check_integration : String → Fields → Result StateError (Unit {0})
unfolding if_present is_integration
check_integration phase state =
    require (absent_or (λ v. str_eq phase "idle" && is_integration v) "accepted_integration" state)
      invalid_integration

abbrev pub later_stages : List String
later_stages =
    "worker-launch" ∷ "post-worker" ∷ "pre-checkpoint" ∷ "checkpointing" ∷ "post-checkpoint"
    ∷ "publishing" ∷ "post-publication" ∷ "lifecycle" ∷ []

-- The stage, and whether a worker is to be known at it.
unfoldable pub check_stage : String → Option WorkerIdentity → Fields → Result StateError (Unit {0})
unfolding if_present text_in item_is item_in
check_stage phase identity state = do
  require (absent_or (text_in ("worker-running" ∷ later_stages)) "execution_stage" state)
      invalid_stage
  require
      (not (
        str_eq phase "agent_running"
        && item_is "execution_stage" "worker-running" state
        && not (is_some identity)))
      missing_worker
  require
      (not (
        str_eq phase "agent_running"
        && item_in "execution_stage" later_stages state
        && is_some identity))
      retained_worker

-- `report.workspace_head` is a text that is not empty.
abbrev is_checkpoint : Option String → Bool
is_checkpoint none = false
is_checkpoint (some head) = not (str_eq head "")

-- The checkpoint of the pending report: none yet while it is made, and one afterwards.
unfoldable pub check_checkpoint : Fields → Option String → Result StateError (Unit {0})
unfolding item_is
check_checkpoint state head =
    if item_is "execution_stage" "checkpointing" state
    then require (not (is_some head)) premature_checkpoint
    else require (is_checkpoint head) missing_checkpoint

abbrev pub report_stages : List String
report_stages = "checkpointing" ∷ "post-checkpoint" ∷ "publishing" ∷ "post-publication" ∷ []

abbrev pub execution_fields : List String
execution_fields =
    "execution_ticket_id" ∷ "execution_base_head" ∷ "execution_control_head" ∷ "execution_branch"
    ∷ "execution_path" ∷ "execution_id" ∷ []

-- The binding of an execution to its workspace; behind it the last check of the source repeats the one
-- of the remote head.
unfoldable pub check_binding : Fields → Result StateError (Unit {0})
unfolding get all_filled if_present
check_binding state = do
  require
      (is_some (get "execution_remote_head" state)
        && all_filled execution_fields state
        && absent_or is_filled "execution_remote_head" state)
      incomplete_binding
  require (absent_or is_filled "execution_remote_head" state) invalid_remote_head

module _ (signal_name : ℕ → Option String) (sha256 : String → String) where
  -- `ExecutionReport.from_dict(state.get("pending_execution_report"))`
  unfoldable pub pending_report : Fields → Result StateError ExecutionReport
  unfolding get
  pending_report state = elim (get "pending_execution_report" state) [
    | none ↦ read null
    | some v ↦ read v
  ]
    where
      read : Value → Result StateError ExecutionReport
      read v = elim (from_dict signal_name sha256 v) [
        | err e ↦ err invalid_pending_report
        | ok report ↦ ok report
      ]

  unfoldable pub check_pending_report : String → Fields → Result StateError (Unit {0})
  unfolding item_in pending_report check_checkpoint
  check_pending_report phase state =
      if str_eq phase "agent_running" && item_in "execution_stage" report_stages state
      then (pending_report state >>= λ report.
          check_checkpoint state report.identity.workspace_head)
      else ok tt

  -- What follows for the two phases of an execution.
  unfoldable pub check_execution :
      String → Option WorkerIdentity → Fields → Result StateError (Unit {0})
  unfolding all_texts all_filled check_stage check_pending_report check_binding
  check_execution phase identity state = do
    require (all_texts ("local_head" ∷ "remote_head" ∷ "changed_paths" ∷ []) state)
        incomplete_coordinates
    require
        (all_filled ("selected_ticket_id" ∷ []) state
          && all_texts ("selected_ticket_body" ∷ []) state)
        incomplete_ticket
    require (all_texts ("control_head" ∷ []) state) incomplete_control
    check_stage phase identity state
    check_pending_report phase state
    check_binding state

  -- What follows for the phase.
  unfoldable pub check_phase :
      String → Option WorkerIdentity → Fields → Result StateError (Unit {0})
  unfolding all_texts check_execution
  check_phase phase identity state =
      if str_eq phase "idle"
      then ok tt
      else if str_eq phase "merge_pending"
      then require
          (all_texts ("local_head" ∷ "remote_head" ∷ "changed_paths" ∷ "control_head" ∷ []) state)
          incomplete_coordinates
      else check_execution phase identity state

  -- The phase is a text: `_load_state` has tested it, and `_save_state` puts one.
  unfoldable pub validate_state : Fields → Result StateError (Unit {0})
  unfolding item_as as_text contains check_reconciliation check_failures check_automatic_retry get
      worker_identity check_interruption check_manual_retry check_integration check_phase
  validate_state state = do
    phase ← expect (item_as as_text "phase" state) invalid_phase
    require (contains phase phases) invalid_phase
    check_reconciliation signal_name sha256 (get "reconciliation" state)
    check_failures state
    check_automatic_retry true (get "automatic_retry" state)
    check_automatic_retry false (get "last_automatic_retry" state)
    identity ← worker_identity (get "worker_identity" state) (get "execution_id" state)
    check_interruption state
    check_manual_retry state
    require (not (str_eq phase "idle" && is_some identity)) active_worker
    check_integration phase state
    check_phase phase identity state
