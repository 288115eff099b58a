-- ===== src/Messaging.antt =====
-- messaging/: delivery to users.
pub mod ReplayGate
pub mod Ack
pub mod Delivery
mod Examples
