-- ===== src/Client.antt =====
-- The client of src/devlegate/ipc_client.py.
pub mod Decode
pub mod Items
pub mod RoundTrip
pub mod Request
pub mod Acks
pub mod Answers
mod Tests
pub mod Delivery
