-- ===== src/Ipc.antt =====
-- The local protocol between the command line and the service: src/devlegate/ipc_protocol.py and the
-- dispatch of src/devlegate/ipc_server.py.
pub mod Errors
pub mod Frame
pub mod Json
pub mod Message
pub mod Calls
pub mod Dispatch
pub mod Server
pub mod Known
mod Tests
