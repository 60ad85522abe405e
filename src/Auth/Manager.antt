-- ===== src/Auth/Manager.antt =====
-- The state of `Manager` of internal/auth/manager.go that all of its methods share: saving the
-- configuration and dropping sessions. The methods are in the modules below.
pub mod Bootstrap
pub mod Accounts
pub mod Settings
pub mod Storage
pub mod Login
pub mod Sessions
pub mod Passwords
pub mod Invariant
