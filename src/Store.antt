-- ===== src/Store.antt =====
-- infra/dashboard/js/store.js: the state, and the operations by the part of it that they change.
pub mod State
pub mod Nodes
pub mod Links
pub mod Logs
pub mod Packets
pub mod Isolation
pub mod Subscribers
pub mod Invariant
