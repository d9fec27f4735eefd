-- ===== src/Tickets.antt =====
-- src/devlegate/tickets.py: tickets, the store that indexes them, and the graph of dependencies.
-- `Defs` has the data and the store, `Graph` the cycle check, and the proofs stand below them.
pub mod Defs
pub mod Text
pub mod Errors
pub mod Parse
pub mod Graph
pub mod Store
pub mod Load
mod Tests
