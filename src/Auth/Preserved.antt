-- ===== src/Auth/Preserved.antt =====
-- The invariant of the manager under its methods, and their errors.
pub mod Accounts
pub mod Grants
pub mod Settings
pub mod InPlace
pub mod Passwords
pub mod Reach
pub mod Atomic
pub mod Each
