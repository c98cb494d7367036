-- ===== src/AckHandler.antt =====
-- src/sa-ecf/ackhandler: which packets were received, which are to be acknowledged, and when.
pub mod History
pub mod Received
pub mod StopWaiting
pub mod Packet
pub mod Sent
mod Tests
