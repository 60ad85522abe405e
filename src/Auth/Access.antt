-- ===== src/Auth/Access.antt =====
-- Who gets in: logins, sessions and their revocation, changes of passwords.
pub mod Current
pub mod Lifetime
pub mod Revocation
pub mod Passwords
