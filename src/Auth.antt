-- ===== src/Auth.antt =====
-- Package auth (internal/auth): local accounts, sessions, settings and passwords.
pub mod Types
pub mod Rules
pub mod Password
pub mod Ldap
pub mod Manager
pub mod Preserved
pub mod Access
