-- ===== src/Ipc/Rdma.antt =====
-- src/ipc/rdma.rs: RDMA queue pairs, ports and connections.
pub mod Codes
pub mod Connection
pub mod Relations
