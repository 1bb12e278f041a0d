-- ===== src/AgvController.antt =====
-- src/controller/agv-controller.ts: the vehicle side of the control logic.
pub mod Validation
pub mod Model
pub mod Errors
pub mod Orders
pub mod Actions
pub mod Process
pub mod Status
pub mod Cancel
pub mod Instant
pub mod Reports
pub mod ErrorUpdates
pub mod Cleanup
