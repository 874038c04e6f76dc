-- ===== src/Auth.antt =====
-- The package auth.
pub mod Password
pub mod Tokens
pub mod Service
pub mod Middleware
pub mod Admission
