-- ===== src/Lifecycle/Steps.antt =====
-- The interleavings of lifecycle requests, workers and the rest of the service.
use devlegate.Prelude.{ℕ, ◌≡◌, String, Bool, Option, some}
use devlegate.Ipc.Json.{Json}
use devlegate.Engine.Save.{Kept}
use devlegate.Lifecycle.{
  Supervisor, admit_worker, retire_worker, Service, mark_service_ready, request_lifecycle,
}
use devlegate.Store.Database.{Calls}

module _ (signal_name : ℕ → Option String) (sha256 : String → String) (json : Json) where
  -- One step: a request, a worker that starts or ends, the service that is ready, or the engine, which
  -- owns another execution and another state.
  pub data Step (s : Service) : Service → Type 0 where
    requests :
        (calls : Calls) (intent request_id : String) (force : Bool)
        → Step s (request_lifecycle signal_name sha256 json calls intent request_id force s).1
    starts :
        (x : String) (w : Supervisor)
        → admit_worker x s.workers ≡ some w
        → Step s (record s { workers = w })
    ends : (x : String) → Step s (record s { workers = retire_worker x s.workers })
    is_up : Step s (mark_service_ready s)
    proceeds :
        (owned : Option String) (kept : Kept) → Step s (record s { owned = owned; kept = kept })

  pub data Steps (s : Service) : Service → Type 0 where
    stays : Steps s s
    goes : {t u : Service} → Steps s t → Step t u → Steps s u
