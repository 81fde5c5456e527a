-- ===== src/Storage.antt =====
-- crates/nova-storage: the record format of the write-ahead log, recovery and snapshots.
pub mod Format
pub mod Recovery
pub mod Wal
pub mod Snapshot
