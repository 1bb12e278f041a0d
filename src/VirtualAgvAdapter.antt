-- ===== src/VirtualAgvAdapter.antt =====
-- src/adapter/virtual-agv-adapter.ts: the virtual vehicle.
pub mod Numbers
pub mod Vehicle
pub mod Definitions
pub mod Machine
pub mod Catalogue
pub mod Adapter
pub mod Motion
