-- ===== src/Session/Spawn.antt =====
-- src/session/spawn_lifecycle.rs: starting a session, and attaching one.
pub mod Wait
pub mod Ending
pub mod Start
