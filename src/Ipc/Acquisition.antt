-- ===== src/Ipc/Acquisition.antt =====
-- src/ipc/acquisition.rs: what the helper acquires.
pub mod Summary
pub mod Live
pub mod Detail
pub mod Status
