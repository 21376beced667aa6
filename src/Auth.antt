-- ===== src/Auth.antt =====
-- Accounts of the API: sessions, passwords, second factors and social logins (src/modules/auth and
-- src/modules/two-factor), over one model of their tables.
pub mod Tables
pub mod Sessions
pub mod Credentials
pub mod BackupCodes
pub mod TwoFactor
pub mod StepUp
pub mod Linking
mod Tests
