-- ===== src/Ipc/SocketTypes.antt =====
-- src/ipc/model/socket_types.rs: socket and descriptor classifications.
pub mod Protocol
pub mod State
pub mod Access
