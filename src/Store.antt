-- ===== src/Store.antt =====
-- Package store (internal/store).
pub mod Types
pub mod Kv
pub mod Etcd
pub mod History
pub mod Registry
pub mod HistoryManager
