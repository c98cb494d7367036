-- ===== src/Wire.antt =====
-- src/sa-ecf/internal/wire: the frames of a packet.
pub mod StreamFrame
pub mod Control
pub mod AckFrame
pub mod AckBlocks
pub mod AckCodec
pub mod ClosePath
mod Tests
mod AckTests
