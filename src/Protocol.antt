-- ===== src/Protocol.antt =====
-- internal/protocol: packet numbers.
pub mod PacketNumber
