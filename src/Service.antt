-- ===== src/Service.antt =====
-- The owner of a project's runtime: the operator commands of src/devlegate/runtime.py.
pub mod Commands
pub mod Receipts
pub mod Slot
mod Tests
