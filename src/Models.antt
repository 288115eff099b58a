-- ===== src/Models.antt =====
-- models/: the types that the other packages share.
pub mod MessageType
pub mod MessagePriority
pub mod Enums
pub mod Classification
pub mod HubMessage
pub mod Client
pub mod Samples
mod Examples
