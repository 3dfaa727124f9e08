-- ===== src/Ipc/Hardware.antt =====
-- src/ipc/hardware.rs: hardware devices and paths.
pub mod Devices
pub mod Kinds
pub mod Links
