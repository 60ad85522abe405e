-- ===== src/Tests.antt =====
-- Tests of the development at concrete inputs.
pub mod Fixtures
mod Auth
mod Files
mod Clusters
mod Keys
mod HistoryManager
mod History
mod Registry
mod Studio
