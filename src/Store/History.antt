-- ===== src/Store/History.antt =====
-- The file-backed history of values, `FileHistory` of internal/store/history.go.
pub mod Types
pub mod Records
pub mod Log
pub mod Query
pub mod Prune
pub mod Newest
pub mod Retention
pub mod Indexed
pub mod Recovery
pub mod Durable
pub mod Outcomes
