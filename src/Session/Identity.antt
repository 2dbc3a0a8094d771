-- ===== src/Session/Identity.antt =====
-- src/session/identity.rs: what a session targets, with the secrets of its command line masked.
-- Texts are lists of code points.
pub mod Secrets
pub mod Redact
pub mod Alike
