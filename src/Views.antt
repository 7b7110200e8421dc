-- ===== src/Views.antt =====
-- infra/dashboard/js/views: what each view shows of the state, and the filters of the stream.
pub mod Elements
pub mod Filters
pub mod Banner
pub mod Stream
pub mod LogPanel
pub mod NodeCard
pub mod Summary
pub mod Topology
pub mod Screen
