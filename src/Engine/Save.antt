-- ===== src/Engine/Save.antt =====
-- `_save_state` of src/devlegate/runtime.py over the runtime store. The directory of the state is there.
pub mod Refines
use devlegate.Prelude.{
  ℕ, String, Bool, true, false, not, ◌&&◌, Option, none, some, List, [], ◌∷◌, str_eq, Result, ok,
  err, if◌then◌else◌,
}
use devlegate.Values.{Fields, str, null, field, no_fields, put, merge}
use devlegate.Ipc.Json.{Json}
use devlegate.Store.Runtime.{replace}
use devlegate.Engine.{StateError}
use devlegate.Engine.Validate.{validate_state}
use devlegate.Store.Database.{StoreError, Calls, File}

-- What a caller of `_save_state` gives.
pub record Save : Type 0 where
  pub phase : String
  pub clear_execution : Bool
  pub preserve_resume_required : Bool
  pub clear_pre_worker_generation : Bool
  pub clear_operator_recovery : Bool
  pub fields : Fields

-- `state.pop(key, None)`
unfoldable pub remove : String → Fields → Fields
remove k no_fields = no_fields
remove k (field j v fs) = let rest = remove k fs in if str_eq k j then rest else field j v rest

unfoldable pub remove_all : List String → Fields → Fields
unfolding remove
remove_all [] fs = fs
remove_all (k ∷ ks) fs = remove_all ks (remove k fs)

abbrev pub selection_fields : List String
selection_fields =
    "selected_ticket_id" ∷ "selected_ticket_body" ∷ "selected_ticket_title"
    ∷ "pending_execution_report" ∷ "execution_interruption_kind" ∷ []

abbrev pub binding_fields : List String
binding_fields =
    "execution_ticket_id" ∷ "execution_base_head" ∷ "execution_control_head" ∷ "execution_branch"
    ∷ "execution_path" ∷ "execution_id" ∷ "execution_remote_head" ∷ "execution_start_head" ∷ []

abbrev pub generation_fields : List String
generation_fields =
    "execution_stage" ∷ "execution_start_head" ∷ "execution_interruption_kind" ∷ "resume_required"
    ∷ []

unfoldable pub settle_idle : Save → Fields → Fields
unfolding remove_all put
settle_idle q fs =
    if str_eq q.phase "idle"
    then put "worker_identity" null (remove_all selection_fields fs)
    else fs

unfoldable pub clear_execution_fields : Save → Fields → Fields
unfolding remove_all
clear_execution_fields q fs =
    if q.clear_execution
    then (if q.preserve_resume_required
        then remove_all binding_fields fs
        else remove "resume_required" (remove_all binding_fields fs))
    else fs

unfoldable pub clear_rest : Save → Fields → Fields
unfolding remove_all
clear_rest q fs =
    let early = if q.clear_pre_worker_generation then remove_all generation_fields fs else fs in
    if q.clear_operator_recovery then remove "operator_recovery" early else early

-- The state that a save is to put.
unfoldable pub next_state : Save → Fields → Fields
unfolding merge put settle_idle clear_execution_fields clear_rest
next_state q state =
    clear_rest q
      (clear_execution_fields q (settle_idle q (merge (put "phase" (str q.phase) state) q.fields)))

-- `self._state`, and the file of the store.
pub record Kept : Type 0 where
  pub state : Fields
  pub file : File

pub data SaveError : Type 0 where
  invalid : StateError → SaveError
  unstored : StoreError → SaveError

-- What `replace` leaves.
abbrev pub stored :
    Fields → Kept → Result StoreError (Unit {0}) × File → Result SaveError (Unit {0}) × Kept
stored state k (err e, file) = (err (unstored e), record k { file = file })
stored state k (ok done, file) = (ok done, record { state = state; file = file })

module _ (json : Json) where
  -- Behind the validation of the state.
  unfoldable pub store_state : Calls → Fields → Kept → Result SaveError (Unit {0}) × Kept
  unfolding replace
  store_state calls state k = stored state k (replace json calls state k.file)

module _ (signal_name : ℕ → Option String) (sha256 : String → String) (json : Json) where
  unfoldable pub save_state : Calls → Save → Kept → Result SaveError (Unit {0}) × Kept
  unfolding next_state validate_state store_state
  save_state calls q k = elim (validate_state signal_name sha256 (next_state q k.state)) [
    | err e ↦ (err (invalid e), k)
    | ok valid ↦ store_state json calls (next_state q k.state) k
  ]

  -- One save after another, each with what its calls of SQLite do; an exception leaves the engine to go on.
  unfoldable pub run_saves : List (Calls × Save) → Kept → Kept
  unfolding save_state
  run_saves [] k = k
  run_saves ((calls, q) ∷ rest) k = run_saves rest (save_state calls q k).1
