-- ===== src/Protocol.antt =====
-- The wire contract shared with the relay: protocol/v1.
pub mod Direction
pub mod Version
pub mod Negotiation
pub mod Base64
pub mod Transcript
pub mod Signing
