-- ===== src/Reports.antt =====
-- What a worker reports and what Devlegate makes of it: src/devlegate/worker_egress.py and
-- src/devlegate/execution_result.py.
pub mod Errors
pub mod Claims
pub mod Egress
pub mod Result
pub mod Document
pub mod Report
mod Tests
