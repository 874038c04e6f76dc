-- ===== src/Handler.antt =====
-- The package handler: what a handler reads of a request, how it answers, and one module for each
-- group of endpoints.
mod Base
pub mod Path
pub mod Create
pub mod Manage
pub mod Body
pub mod Auth
pub mod Redirect
pub mod Analytics
pub mod Ownership
pub use Base.*
