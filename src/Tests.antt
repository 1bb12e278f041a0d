-- ===== src/Tests.antt =====
-- Concrete inputs that the theorems are applied to.
pub mod Vehicles
pub mod Errors
pub mod Broker
pub mod Inbound
pub mod Fixtures
pub mod Vehicle
pub mod Messages
pub mod Virtual
pub mod VirtualDrive
pub mod Master
