-- ===== src/Ipc/Errors.antt =====
-- `IPCProtocolError` of src/devlegate/ipc_protocol.py: its code and whether it ends the connection.
use devlegate.Prelude.{Bool, false, true}

pub data Code : Type 0 where
  oversized_frame malformed_protocol invalid_request unsupported_version unknown_method : Code

pub record ProtocolError : Type 0 where
  pub code : Code
  pub fatal : Bool

abbrev pub error : Code → ProtocolError
error c = record { code = c; fatal = false }

abbrev pub fatal_error : Code → ProtocolError
fatal_error c = record { code = c; fatal = true }
