-- ===== src/Hub.antt =====
-- src/http_server/hosts: a hub, which takes the servers of other machines as agents.
pub mod Names
pub mod Registry
pub mod Hosts
pub mod Registered
pub mod Stale
pub mod Agents
pub mod Frames
pub mod Secrets
pub mod Correlate
pub mod Views
pub mod Connector
pub mod Identity
pub mod Handshake
pub mod Link
pub mod Waiting
