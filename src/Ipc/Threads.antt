-- ===== src/Ipc/Threads.antt =====
-- src/ipc/model/threads.rs: thread metadata.
pub mod Policy
pub mod Sample
