-- ===== src/Control.antt =====
-- The control program: control/config and control/cmd.
pub mod Config
pub mod Durations
pub mod Names
pub mod Settings
pub mod Listing
pub mod Session
pub mod Benchctl
pub mod Launch
pub mod Tests
