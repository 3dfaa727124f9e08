-- ===== src/Ipc/System.antt =====
-- src/ipc/model/system.rs: the system snapshot.
pub mod Endpoints
pub mod Snapshot
