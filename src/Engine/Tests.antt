-- ===== src/Engine/Tests.antt =====
-- The theorems on the state of the engine at small inputs.
use devlegate.Prelude.{
  ◌≡◌, refl, inl, ℕ, String, true, false, Option, none, some, [], ◌∷◌, ok, arith,
}
use devlegate.Values.{Value, Fields, obj, str, int, null, field, no_fields}
use devlegate.Values.Int.{pos}
use devlegate.Ipc.Known.{known, known-IsJson}
use devlegate.Store.Runtime.{replace_payload, run_write, write_state, insert_state, next_revision}
use devlegate.Store.Transaction.{transact, execute, commit, closed}
use devlegate.Store.Runtime.Laws.{ready}
use devlegate.Engine.Validate.{validate_state}
use devlegate.Engine.Validate.Laws.{IsValid, validate_state-IsValid}
use devlegate.Engine.Save.{Save, Kept, save_state, run_saves}
use devlegate.Engine.Save.Refines.{Register, Represents, Writes, run_saves-Refines}
use devlegate.Store.Database.{Calls, text, integer, initialize_schema}

abbrev no_signal : ℕ → Option String
no_signal n = none

abbrev no_digest : String → String
no_digest s = s

abbrev worker : Value
worker = obj (
    field "execution_id" (str "x") (
      field "pid" (int (pos 7)) (
        field "pgid" (int (pos 7)) (
          field "sid" (int (pos 7))
            (field "boot_id" (str "b") (field "start_time" (int (pos 3)) no_fields))))))

-- A worker runs on the ticket "a".
abbrev running : Fields
running = field "phase" (str "agent_running") (
    field "local_head" (str "l") (
      field "remote_head" (str "r") (
        field "changed_paths" (str "") (
          field "control_head" (str "c") (
            field "selected_ticket_id" (str "a") (
              field "selected_ticket_body" (str "do") (
                field "execution_stage" (str "worker-running") (
                  field "worker_identity" worker (
                    field "execution_ticket_id" (str "a") (
                      field "execution_base_head" (str "l") (
                        field "execution_control_head" (str "c") (
                          field "execution_branch" (str "e") (
                            field "execution_path" (str "p") (
                              field "execution_id" (str "x")
                                (field "execution_remote_head" null no_fields)))))))))))))))

running_passes : validate_state no_signal no_digest running ≡ ok tt
unfolding validate_state
running_passes = refl

validate_state-IsValid_example : IsValid running
validate_state-IsValid_example = validate_state-IsValid no_signal no_digest running running_passes

abbrev calls : Calls
calls = record {
  connects = true;
  creates_state = true;
  creates_authority = true;
  sets_version = true;
  begins = true;
  writes = true;
  commits = true;
}

abbrev idle : Fields
idle = field "phase" (str "idle") no_fields

abbrev settle : Save
settle = record {
  phase = "idle";
  clear_execution = true;
  preserve_resume_required = false;
  clear_pre_worker_generation = false;
  clear_operator_recovery = false;
  fields = field "handled_remote_head" (str "r") no_fields;
}

abbrev fresh : Kept
fresh = record { state = idle; file = some (ready none none) }

abbrev start : Register
start = record { state = idle; revision = 0 }

-- The state that `settle` puts.
abbrev settled : Fields
settled =
    field "phase" (str "idle")
      (field "handled_remote_head" (str "r") (field "worker_identity" null no_fields))

settle_run : save_state no_signal no_digest (known (obj settled)) calls settle fresh ≡ (
  ok tt,
  record { state = settled; file = some (ready (some (text [], integer (pos 1))) none) },
)
unfolding save_state known replace_payload run_write initialize_schema transact execute commit
    closed write_state insert_state next_revision
settle_run = refl

fresh-Represents :
    Represents no_signal no_digest
      (known (obj settled))
      ⦃law = known-IsJson (obj settled)⦄
      none
      fresh
      start
fresh-Represents = record {
  in_memory = refl;
  row = none;
  in_file = refl;
  counts = inl (refl, refl);
  loads = λ n h. absurd (omega arith);
}

run_saves-Refines_example :
    (s : Register) × Writes no_signal no_digest
      (known (obj settled))
      ⦃law = known-IsJson (obj settled)⦄
      none
      start
      s
    × Represents no_signal no_digest
        (known (obj settled))
        ⦃law = known-IsJson (obj settled)⦄
        none
        (run_saves no_signal no_digest (known (obj settled)) ((calls, settle) ∷ []) fresh)
        s
run_saves-Refines_example =
    run_saves-Refines no_signal no_digest (known (obj settled)) ⦃law = known-IsJson (obj settled)⦄
      none ((calls, settle) ∷ []) fresh start fresh-Represents
