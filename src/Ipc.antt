-- ===== src/Ipc.antt =====
-- The typed messages between the server and its privileged helper (src/ipc).
pub mod Codec
pub mod Resource
pub mod SocketTypes
pub mod Elf
pub mod Stack
pub mod History
pub mod Memory
pub mod Threads
pub mod Identity
pub mod Process
pub mod Sockets
pub mod Registers
pub mod Activity
pub mod Hardware
pub mod Rdma
pub mod Descriptors
pub mod System
pub mod Acquisition
pub mod Schema
pub mod Transport
