-- ===== src/Sampling.antt =====
-- src/privileged_helper/process/snapshot: samples of a thread, taken by the kernel, and its stack.
pub mod FramePointers
pub mod Perf
pub mod Ring
