-- ===== src/Dap.antt =====
-- src/dap.rs: `Content-Length` framing of JSON messages over bytes.
pub mod Text
pub mod Header
pub mod Frame
pub mod Roundtrip
pub mod Prefix
pub mod Size
