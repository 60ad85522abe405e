-- ===== src/Store/Registry.antt =====
-- The registry of clusters, internal/store/registry.go.
pub mod Types
pub mod Input
pub mod Clusters
pub mod Names
pub mod Changes
pub mod Refused
pub mod Kept
