-- ===== src/Ipc/Calls.antt =====
-- The engine and the process that the dispatch of src/devlegate/ipc_server.py calls, as an interface
-- over the engine's own state.
use devlegate.Prelude.{ℕ, String, Bool, Option, Result}
use devlegate.Values.{Items, Fields}
use devlegate.Ipc.Errors.{ProtocolError}

-- What a call may raise: an `IPCProtocolError`, or another exception with its message.
pub data Raised : Type 0 where
  protocol : ProtocolError → Raised
  other : String → Raised

-- The calls that the mutations make.
pub data Call : Type 0 where
  lifecycle : String → Bool → Call
  submit_retry : String → Bool → Call
  submit_drop : String → String → Call
  submit_recover : String → String → String → Call
  submit_reconcile_update_base : String → Option String → Bool → Call
  submit_reconcile_resume : String → Call
  submit_reconcile_auto : String → Option String → Call
  submit_reconcile_control : String → String → Call

-- A call of the engine with the id of the request: its answer and the state it leaves.
abbrev pub Operation : Type 0 → Type 0
Operation S = S → Result Raised Fields × S

pub record Engine (S : Type 0) : Type 0 where
  pub lifecycle : Option (String → String → Bool → Operation S)
  pub retry : String → Bool → String → Operation S
  pub drop : String → String → String → Operation S
  pub recover : String → String → String → String → Operation S
  pub reconcile_update_base : String → Option String → Bool → String → Operation S
  pub reconcile_resume : String → String → Operation S
  pub reconcile_auto : String → Option String → String → Operation S
  pub reconcile_control : String → String → String → Operation S
  pub published_status_payload : S → Result Raised Fields
  pub published_plan : S → Result Raised Fields
  pub published_retry_candidates : S → Result Raised Items
  pub published_drop_candidates : S → Result Raised Items
  pub lifecycle_status_payload : Option (S → Result Raised Fields)

-- The process that serves: `__version__`, `os.getpid()` and `_INSTANCE_ID`.
pub record Process : Type 0 where
  pub version : String
  pub pid : ℕ
  pub instance_id : String
