-- ===== src/Connection.antt =====
-- connection/: the connections of a node.
pub mod Observers
pub mod Refs
pub mod Registry
pub mod ControlLane
pub mod SlowConsumer
mod Examples
