-- ===== src/Helper.antt =====
-- src/privileged_helper: the privileged process that collects, and serves the requests of its parent.
pub mod Monitors
pub mod Service
pub mod Dispatch
pub mod Serve
pub mod Counts
pub mod Invariant
pub mod Runs
pub mod Ids
pub mod Lookup
pub mod Cases
pub mod Leases
pub mod Polls
