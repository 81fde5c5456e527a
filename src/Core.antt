-- ===== src/Core.antt =====
-- crates/nova-core: errors, documents and values.
pub mod Error
pub mod Value
pub mod DocumentId
pub mod Document
pub mod Outcome
pub mod Event
