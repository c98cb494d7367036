-- ===== src/Congestion.antt =====
-- src/sa-ecf/congestion: the parts of the congestion control that compute with integers.
pub mod PrrSender
mod Tests
