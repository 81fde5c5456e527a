-- ===== src/Protocol.antt =====
-- crates/nova-protocol: NVP frames and the codec.
pub mod Frame
pub mod Codec
pub mod Payload
