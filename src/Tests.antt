-- ===== src/Tests.antt =====
-- Runs of the code at concrete inputs, and the theorems at inputs where their hypotheses hold.
mod Codec
mod Transport
mod Helper
mod Hub
mod Agents
mod Correlate
mod Exchange
mod Delivery
mod Netlink
mod Privacy
mod Sampling
