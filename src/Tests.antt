-- ===== src/Tests.antt =====
-- Examples: each theorem with hypotheses, applied to concrete inputs.
mod Data
mod Repository
mod Schedule
mod Service
mod Cached
mod Worker
mod Handler
mod Keyed
mod Lasting
mod Mux
mod Secrets
mod Auth
mod Clicks
mod Server
mod Shutdown
mod Sessions
