-- ===== src/Store.antt =====
-- The durable runtime state: src/devlegate/runtime_store.py.
pub mod Database
pub mod Transaction
pub mod Runtime
mod Tests
