-- ===== src/Repository.antt =====
-- The package repository: one module for each repository.
pub mod Urls
pub mod Users
pub mod Tokens
pub mod Keys
pub mod Clicks
