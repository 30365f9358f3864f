-- ===== src/App.antt =====
-- crates/app: requests over HTTP, and the configuration.
pub mod Crates
pub mod Http
pub mod Fields
pub mod Sessions
pub mod PathIdentifier
pub mod Invites
pub mod Routes
pub mod Steps
pub mod Authenticated
pub mod Refinement
pub mod Protection
pub mod Config
pub mod Cookie
pub mod Acceptance
