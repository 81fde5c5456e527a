-- ===== src/Tests.antt =====
-- Concrete runs, and the theorems at concrete inputs.
mod Plain
mod Frames
mod Log
mod Queries
mod Engine
mod Reads
mod Indexed
mod Lexing
mod Values
mod Connections
mod Snapshots
mod Clients
mod Asking
mod Webs
mod Backups
