-- ===== src/App.antt =====
-- Package app (internal/app).
pub mod Answers
pub mod Inputs
pub mod Server
pub mod Audit
pub mod Access
pub mod Versions
pub mod Keys
pub mod Studio
pub mod Users
pub mod Clusters
pub mod Granted
pub mod Own
