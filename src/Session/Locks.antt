-- ===== src/Session/Locks.antt =====
-- src/session/locks.rs: lock files that several command lines claim, judge stale and reclaim.
pub mod World
pub mod Quarantine
pub mod Events
pub mod Startup
pub mod Endpoint
pub mod Guarded
pub mod PutBack
pub mod Verdicts
pub mod Claims
pub mod Kept
pub mod Quiet
pub mod Names
