-- ===== src/Utils/ByteOrder.antt =====
-- src/sa-ecf/internal/utils/byteorder.go: what a byte order offers to the wire package, the laws
-- that the wire package relies on, and the choice between the two orders.
mod Interface
pub mod LittleEndian
pub mod BigEndian
pub mod Codecs
pub use Interface.*
