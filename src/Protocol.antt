-- ===== src/Protocol.antt =====
-- src/protocol.rs: the wire format.
pub mod Layout
pub mod Packet
pub mod Padding
