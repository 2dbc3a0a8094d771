-- ===== src/Tests.antt =====
-- Runs of the model at concrete inputs, and each theorem at an input that meets its hypotheses.
pub mod Framing
pub mod Breakpoints
pub mod Layering
pub mod Listing
pub mod Locking
pub mod Naming
pub mod Closing
pub mod Redaction
pub mod Attaching
pub mod Starting
pub mod Printing
pub mod Provisioning
pub mod Targeting
pub mod Causes
