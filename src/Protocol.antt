-- ===== src/Protocol.antt =====
-- crates/protocol: the wire messages, their frames, and the validation of every message against
-- the negotiated limits.
pub mod Error
pub mod Limits
pub mod Message
pub mod ShmName
pub mod Validate
pub mod Payload
pub mod Stream
pub mod Framing
mod Tests
