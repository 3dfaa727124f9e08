-- ===== src/Ipc/Schema.antt =====
-- src/ipc/schema.rs: the requests, the events and the responses.
pub mod Request
pub mod Event
pub mod Response
pub mod Contexts
