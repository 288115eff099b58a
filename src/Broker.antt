-- ===== src/Broker.antt =====
-- broker/: what comes from the message bus.
pub mod Dedup
pub mod Envelope
pub mod Consumer
mod Examples
