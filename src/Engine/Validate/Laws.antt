-- ===== src/Engine/Validate/Laws.antt =====
-- What a valid state says of its execution.
use devlegate.Prelude.{
  ◌≡◌, ◌⊎◌, refl, ℕ, String, true, false, Option, none, some, [], ◌∷◌, str_eq, contains, ok,
  require-eq-ok, seq_inversion, expect-eq-ok, bind_inversion, both, is_some,
}
use devlegate.Values.{Value, Fields, null, get, as_text, item_as}
use devlegate.Engine.{
  invalid_phase, active_worker, incomplete_coordinates, incomplete_ticket, incomplete_control,
  all_filled,
}
use devlegate.Engine.Identity.{WorkerIdentity, worker_identity}
use devlegate.Engine.Recovery.{check_reconciliation, check_failures, check_automatic_retry}
use devlegate.Engine.Validate.{
  phases, check_interruption, check_manual_retry, check_integration, is_integration, check_stage,
  execution_fields, check_pending_report, check_execution, check_phase, validate_state,
}
use devlegate.Engine.Validate.Parts.{
  all_filled-HasText, KnowsWorker, IsBound, not_there, no_conflict, check_stage-KnowsWorker,
  check_integration-cases, check_binding-inversion,
}

pub record IsValid (state : Fields) : Type 0 where
  pub phase : String
  pub in_phase : item_as as_text "phase" state ≡ some phase
  pub known_phase : contains phase phases ≡ true
  pub identity : Option WorkerIdentity
  pub worker :
      worker_identity (get "worker_identity" state) (get "execution_id" state) ≡ ok identity
  pub idle : str_eq phase "idle" ≡ true → identity ≡ none
  pub integrating :
      (v : Value)
      → get "accepted_integration" state ≡ some v
      → (v ≡ null) ⊎ ((str_eq phase "idle" ≡ true) × (is_integration v ≡ true))
  pub bound :
      str_eq phase "idle" ≡ false
      → str_eq phase "merge_pending" ≡ false
      → IsBound state × KnowsWorker phase identity state

module _ (signal_name : ℕ → Option String) (sha256 : String → String) where
  check_execution-IsBound :
      (phase : String) (identity : Option WorkerIdentity) (state : Fields)
      → check_execution signal_name sha256 phase identity state ≡ ok tt
      → IsBound state × KnowsWorker phase identity state
  unfolding check_execution
  check_execution-IsBound phase identity state h =
      let (coordinates, h₁) = require-eq-ok _ incomplete_coordinates _ h in
      let (ticket, h₂) = require-eq-ok _ incomplete_ticket _ h₁ in
      let (control, h₃) = require-eq-ok _ incomplete_control _ h₂ in
      let (stage, h₄) = seq_inversion (check_stage phase identity state) _ h₃ in
      let (report, h₅) = seq_inversion (check_pending_report signal_name sha256 phase state) _ h₄ in
      let (filled, remote) = check_binding-inversion state h₅ in
      let (selected, body) = both (all_filled ("selected_ticket_id" ∷ []) state) _ ticket in
      (
        record {
          selected =
              all_filled-HasText ("selected_ticket_id" ∷ []) state selected "selected_ticket_id"
                refl;
          workspace = all_filled-HasText execution_fields state filled;
          remote = remote;
        },
        check_stage-KnowsWorker phase identity state stage,
      )

  check_phase-execution :
      (phase : String) (identity : Option WorkerIdentity) (state : Fields)
      → check_phase signal_name sha256 phase identity state ≡ ok tt
      → str_eq phase "idle" ≡ false
      → str_eq phase "merge_pending" ≡ false
      → check_execution signal_name sha256 phase identity state ≡ ok tt
  unfolding check_phase
  check_phase-execution phase identity state h busy unmerged = rw (check_phase, busy, unmerged) at h

  -- A state that `_validate_state_invariant` lets pass has one of the four phases and a worker identity that
  -- can be read, or none. While idle it has none, and only then it may have an accepted integration, which is
  -- well formed. In the two phases of an execution it names its ticket and its whole workspace, and in
  -- `agent_running` it has a worker at the stage `worker-running` and at no later one.
  pub validate_state-IsValid :
      (state : Fields) → validate_state signal_name sha256 state ≡ ok tt → IsValid state
  unfolding validate_state
  validate_state-IsValid state h =
      let (phase, in_phase, h₁) = expect-eq-ok (item_as as_text "phase" state) invalid_phase _ h in
      let (known_phase, h₂) = require-eq-ok (contains phase phases) invalid_phase _ h₁ in
      let (reconciled, h₃) =
        seq_inversion (check_reconciliation signal_name sha256 (get "reconciliation" state)) _ h₂ in
      let (failures, h₄) = seq_inversion (check_failures state) _ h₃ in
      let (current, h₅) =
        seq_inversion (check_automatic_retry true (get "automatic_retry" state)) _ h₄ in
      let (last, h₆) =
        seq_inversion (check_automatic_retry false (get "last_automatic_retry" state)) _ h₅ in
      let (identity, worker, h₇) =
        bind_inversion (worker_identity (get "worker_identity" state) (get "execution_id" state)) _
          h₆ in
      let (interruption, h₈) = seq_inversion (check_interruption state) _ h₇ in
      let (marker, h₉) = seq_inversion (check_manual_retry state) _ h₈ in
      let (quiet, h₁₀) = require-eq-ok _ active_worker _ h₉ in
      let (integrating, h₁₁) = seq_inversion (check_integration phase state) _ h₁₀ in
      record {
        phase = phase;
        in_phase = in_phase;
        known_phase = known_phase;
        identity = identity;
        worker = worker;
        idle =
            λ i. not_there identity (no_conflict (str_eq phase "idle") (is_some identity) quiet i);
        integrating = λ v found. check_integration-cases phase state v integrating found;
        bound = λ busy unmerged.
            check_execution-IsBound phase identity state
              (check_phase-execution phase identity state h₁₁ busy unmerged);
      }
