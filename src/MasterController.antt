-- ===== src/MasterController.antt =====
-- src/controller/master-controller.ts: the master controller.
pub mod Model
pub mod Caches
pub mod Graph
pub mod Edges
pub mod Orders
pub mod Instant
pub mod Dispatch
