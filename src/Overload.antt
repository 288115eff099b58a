-- ===== src/Overload.antt =====
-- overload/: protection against overload.
pub mod Shaper
pub mod Admission
pub mod Coalescer
pub mod Metrics
pub mod Aggregator
pub mod DelayQueue
mod Examples
