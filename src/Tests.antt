-- ===== src/Tests.antt =====
-- Runs on small inputs, and the theorems at concrete arguments.
pub mod Game
pub mod Throttle
pub mod Windows
pub mod Password
pub mod PasswordHash
pub mod Server
pub mod Connections
