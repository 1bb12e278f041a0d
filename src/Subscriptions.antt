-- ===== src/Subscriptions.antt =====
-- src/common/subscription-manager.ts: topic formats (Format) and managed subscriptions (Store).
pub mod Format
pub mod Store
