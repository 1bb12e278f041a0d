-- ===== src/Types.antt =====
-- src/common/vda-5050-types.ts and src/common/client-types.ts: the objects that clients exchange.
-- Identifiers are texts, sequence and update identifiers natural numbers; physical quantities are
-- carried along and never computed with, so they are the doubles' bit fields.
mod Values
mod Headers
mod Actions
mod Orders
mod States
mod Topics
pub use Values.*
pub use Headers.*
pub use Actions.*
pub use Orders.*
pub use States.*
pub use Topics.*
