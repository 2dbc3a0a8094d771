-- ===== src/Session.antt =====
-- src/session: the lifecycle of a debug session, kept in a directory of small JSON files.
pub mod Error
pub mod Paths
pub mod Sidecar
pub mod Forward
pub mod Breaks
pub mod Locks
pub mod Probe
pub mod Causes
pub mod Close
pub mod Identity
pub mod Attach
pub mod Layered
pub mod Status
pub mod Spawn
