-- ===== src/Config.antt =====
-- config.py: the settings of the program.
pub mod Credentials
pub mod Settings
pub mod Fields
pub mod Loading
pub mod Accepted
pub mod Devices
