-- ===== src/Lifecycle/Tests.antt =====
-- The theorems on the lifecycle at small inputs.
use devlegate.Prelude.{◌≡◌, refl, ℕ, String, true, false, Option, none, some, [], ◌∷◌}
use devlegate.Values.{obj, str, field, no_fields}
use devlegate.Ipc.Json.{Json}
use devlegate.Ipc.Known.{known}
use devlegate.Store.Runtime.Laws.{ready}
use devlegate.Lifecycle.{retire_worker, Service, request_lifecycle, exit_ready}
use devlegate.Lifecycle.Steps.{Step, Steps}
use devlegate.Lifecycle.Drains.{IsCoherent, Shrinks, Steps-Drains}
use devlegate.Lifecycle.Exits.{IsCheckpointed, exit_ready-Final}
use devlegate.Store.Database.{Calls}

abbrev no_signal : ℕ → Option String
no_signal n = none

abbrev no_digest : String → String
no_digest s = s

abbrev json : Json
json = known (obj no_fields)

abbrev calls : Calls
calls = record {
  connects = true;
  creates_state = true;
  creates_authority = true;
  sets_version = true;
  begins = true;
  writes = true;
  commits = true;
}

-- A service that accepts workers.
abbrev up : Service
up = record {
  intent = none;
  phase = "running";
  request_id = none;
  force = false;
  is_ready = true;
  workers = record { active = []; draining = false };
  stop = none;
  owned = none;
  kept = record { state = field "phase" (str "idle") no_fields; file = some (ready none none) };
}

abbrev busy : Service
busy = record up { workers = record { active = "x" ∷ []; draining = false } }

-- A stop is asked for, and then the worker ends.
abbrev stopping : Service
stopping = (request_lifecycle no_signal no_digest json calls "stop" "1" false busy).1

abbrev drained : Service
drained = record stopping { workers = retire_worker "x" stopping.workers }

drained_run : Steps no_signal no_digest json stopping drained
drained_run = Steps.goes Steps.stays (Step.ends "x")

stopping-IsCoherent : IsCoherent stopping
unfolding request_lifecycle
stopping-IsCoherent i e = refl

Steps-Drains_example :
    IsCoherent drained
    × ((i : String)
        → stopping.intent ≡ some i
        → (drained.intent ≡ some i) × Shrinks stopping.workers drained.workers)
Steps-Drains_example =
    Steps-Drains no_signal no_digest json stopping drained stopping-IsCoherent drained_run

-- A service that may exit while it owns a published execution.
abbrev published : Service
published = record drained {
  owned = some "x";
  kept = record {
    state =
        field "phase" (str "agent_running") (field "execution_stage" (str "publishing") no_fields);
    file = some (ready none none);
  };
}

published-IsCoherent : IsCoherent published
unfolding request_lifecycle retire_worker
published-IsCoherent i e = refl

published_ready : exit_ready published ≡ true
unfolding request_lifecycle exit_ready retire_worker
published_ready = refl

refused_run : Steps no_signal no_digest json published published
refused_run = Steps.stays

exit_ready-Final_example :
    (i : String) × (published.intent ≡ some i)
    × (published.workers.active ≡ [])
    × IsCheckpointed published
    × (published.intent ≡ some i)
    × (published.workers.active ≡ [])
exit_ready-Final_example =
    exit_ready-Final no_signal no_digest json published published published-IsCoherent
      published_ready refused_run
