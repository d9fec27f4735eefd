-- ===== src/Lifecycle.antt =====
-- How a service stops: the lifecycle of src/devlegate/runtime.py, the admission of workers of
-- src/devlegate/worker_supervisor.py, and the intent of src/devlegate/daemon.py. Each function is one
-- region under the locks.
pub mod Steps
pub mod Drains
pub mod Exits
mod Tests
use devlegate.Prelude.{
  ℕ, zero, suc, String, Bool, true, false, not, ◌&&◌, ◌||◌, Option, none, some, List, [], ◌∷◌,
  length, str_eq, if◌then◌else◌, Result, ok, err, contains, ◌==◌, is_some,
}
use devlegate.Values.{
  Value, Fields, obj, str, int, bool, null, field, no_fields, get, as_text, item_as, item_is,
  text_or_null,
}
use devlegate.Values.Int.{pos}
use devlegate.Ipc.Json.{Json}
use devlegate.Status.Plan.{is_bound_phase}
use devlegate.Engine.{item_in, all_filled}
use devlegate.Engine.Save.{Save, Kept, SaveError, save_state}
use devlegate.Store.Database.{Calls}

-- `WorkerSupervisor`: the keys of `_active`, and `_draining`.
pub record Supervisor : Type 0 where
  pub active : List String
  pub draining : Bool

unfoldable pub begin_drain : Supervisor → Bool × Supervisor
begin_drain w = if w.draining then (false, w) else (true, record w { draining = true })

unfoldable pub without : String → List String → List String
without x [] = []
without x (y ∷ ys) = let rest = without x ys in if str_eq x y then rest else y ∷ rest

-- The region of `run` in front of a worker: nothing where admission is closed.
unfoldable pub admit_worker : String → Supervisor → Option Supervisor
unfolding without
admit_worker x w = if w.draining then none else some (record w { active = x ∷ without x w.active })

-- The region of `run` behind a worker: `_active.pop(execution_id, None)`
unfoldable pub retire_worker : String → Supervisor → Supervisor
unfolding without
retire_worker x w = record w { active = without x w.active }

abbrev pub active_count : Supervisor → ℕ
active_count w = length w.active

-- `ShutdownIntent`
pub record ShutdownIntent : Type 0 where
  pub kind : Option String
  pub source : Option String
  pub is_set : Bool

-- `request("operator_abort", source="operator_abort")` where there is an event
unfoldable pub request_abort : Option ShutdownIntent → Option ShutdownIntent
request_abort none = none
request_abort (some e) =
    some (record { kind = some "operator_abort"; source = some "operator_abort"; is_set = true })

-- What the lifecycle reads and changes of an engine.
pub record Service : Type 0 where
  pub intent : Option String
  pub phase : String
  pub request_id : Option String
  pub force : Bool
  pub is_ready : Bool
  pub workers : Supervisor
  pub stop : Option ShutdownIntent
  pub owned : Option String
  pub kept : Kept

pub data LifecycleError : Type 0 where
  unsupported_intent already_accepted : LifecycleError
  unsaved : SaveError → LifecycleError

-- `state.get(key)` in a new dict
abbrev item_or_null : String → Fields → Value
item_or_null k fs = elim (get k fs) [ none ↦ null | some v ↦ v ]

-- The durable barrier of a forced stop.
unfoldable pub manual_retry_save : String → Fields → Save
unfolding get item_as as_text
manual_retry_save request_id state = record {
  phase = elim (item_as as_text "phase" state) [ none ↦ "" | some p ↦ p ];
  clear_execution = false;
  preserve_resume_required = false;
  clear_pre_worker_generation = false;
  clear_operator_recovery = false;
  fields =
      field "manual_retry_required"
        (obj (
          field "ticket_id" (item_or_null "execution_ticket_id" state) (
            field "execution_id" (item_or_null "execution_id" state) (
              field "generation" (item_or_null "execution_base_head" state)
                (field "request_id" (str request_id) no_fields)))))
        no_fields;
}

-- Whether a stop is to leave a manual retry.
unfoldable pub needs_manual_retry : String → Bool → Fields → Bool
unfolding is_bound_phase all_filled
needs_manual_retry intent force state =
    str_eq intent "stop"
    && force
    && is_bound_phase state
    && all_filled ("execution_ticket_id" ∷ "execution_id" ∷ "execution_base_head" ∷ []) state

-- The admission of a new intent, up to the save.
unfoldable pub begin_intent : String → String → Bool → Service → Service
unfolding begin_drain
begin_intent intent request_id force s = record s {
  intent = some intent;
  phase = "draining";
  request_id = some request_id;
  force = force;
  workers = (begin_drain s.workers).1;
}

abbrev pub aborted : Bool → Service → Service
aborted force s = if force then record s { stop = request_abort s.stop } else s

-- A request while an intent is accepted.
unfoldable pub repeat_intent :
    String → String → Bool → Service → Result LifecycleError (Unit {0}) × Service
unfolding request_abort
repeat_intent accepted intent force s =
    if str_eq accepted intent
    then (ok tt, if force then record s { force = true; stop = request_abort s.stop } else s)
    else (err already_accepted, s)

-- A request behind the check of its intent; `accepting` is what it comes to while none is accepted.
abbrev pub on_intent :
    Result LifecycleError (Unit {0}) × Service
    → Option String
    → String
    → Bool
    → Service
    → Result LifecycleError (Unit {0}) × Service
on_intent accepting none intent force s = accepting
on_intent accepting (some accepted) intent force s = repeat_intent accepted intent force s

-- `lifecycle_status_payload`
unfoldable pub status_payload : Service → Fields
unfolding text_or_null
status_payload s = field "intent" (str (elim s.intent [ none ↦ "none" | some i ↦ i ])) (
    field "phase" (str s.phase) (
      field "ready" (bool s.is_ready) (
        field "request_id" (text_or_null s.request_id) (
          field "workers" (obj (field "active" (int (pos (active_count s.workers))) no_fields))
            (field "force" (bool s.force) no_fields)))))

unfoldable pub mark_service_ready : Service → Service
mark_service_ready s = record s { is_ready = true }

unfoldable pub exit_ready : Service → Bool
unfolding item_is item_in
exit_ready s =
    if not (is_some s.intent) || not (active_count s.workers == 0)
    then false
    else if not (is_some s.owned) || not (item_is "phase" "agent_running" s.kept.state)
    then true
    else item_in "execution_stage"
        ("post-checkpoint" ∷ "publishing" ∷ "post-publication" ∷ "lifecycle" ∷ []) s.kept.state

module _ (signal_name : ℕ → Option String) (sha256 : String → String) (json : Json) where
  abbrev after_save :
      Bool
      → Service
      → Result SaveError (Unit {0}) × Kept
      → Result LifecycleError (Unit {0}) × Service
  after_save force s (err e, k) = (err (unsaved e), record s { kept = k })
  after_save force s (ok done, k) = (ok tt, aborted force (record s { kept = k }))

  -- A request without an accepted intent: a save that raises leaves the intent accepted.
  unfoldable pub accept_intent :
      Calls → String → String → Bool → Service → Result LifecycleError (Unit {0}) × Service
  unfolding begin_intent needs_manual_retry manual_retry_save save_state request_abort
  accept_intent calls intent request_id force s =
      let begun = begin_intent intent request_id force s in
      if needs_manual_retry intent force s.kept.state
      then after_save force begun (
          save_state signal_name sha256 json calls (manual_retry_save request_id s.kept.state)
            s.kept)
      else (ok tt, aborted force begun)

  -- `request_lifecycle`, up to its wake and its answer `status_payload`.
  unfoldable pub request_lifecycle :
      Calls → String → String → Bool → Service → Result LifecycleError (Unit {0}) × Service
  unfolding accept_intent repeat_intent
  request_lifecycle calls intent request_id force s =
      let accepting = accept_intent calls intent request_id force s in
      if str_eq intent "stop" || str_eq intent "restart"
      then on_intent accepting s.intent intent force s
      else (err unsupported_intent, s)
