-- ===== src/Server.antt =====
-- crates/nova-server: the database engine, its counters and a client's connection.
pub mod Metrics
pub mod Engine
pub mod Connection
pub mod Status
pub mod Web
