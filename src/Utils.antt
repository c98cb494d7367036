-- ===== src/Utils.antt =====
-- src/sa-ecf/internal/utils: byte orders and the 16-bit floating point format.
pub mod Reader
pub mod ByteOrder
pub mod Float16
mod Tests
