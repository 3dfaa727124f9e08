-- ===== src/Ipc/Process.antt =====
-- src/ipc/model/process.rs: process counters.
pub mod Sample
pub mod Observation
