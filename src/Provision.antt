-- ===== src/Provision.antt =====
-- src/bridge.rs: how the embedded bridges and their tools come to disk on first use.
pub mod Disk
pub mod Links
pub mod Write
pub mod Lock
pub mod Bridges
pub mod Tools
pub mod Entry
