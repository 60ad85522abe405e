-- ===== src/Store/HistoryManager.antt =====
-- `HistoryManager` of internal/store/history_manager.go, over the backend that it opens.
pub mod Input
pub mod Types
pub mod Settings
pub mod Operations
pub mod Storage
pub mod Normal
pub mod Kept
pub mod Restart
