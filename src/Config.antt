-- ===== src/Config.antt =====
-- crates/config/src/lib.rs: the parts of the configuration that decide something.
pub mod Access
pub mod Durations
pub mod Runtime
pub mod Secrets
pub mod Restored
pub mod Checks
pub mod Validate
pub mod Browser
pub mod Ports
pub mod Served
pub mod Valid
pub mod Samples
mod Tests
