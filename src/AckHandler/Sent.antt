-- ===== src/AckHandler/Sent.antt =====
-- src/sa-ecf/ackhandler/sent_packet_handler.go: the packets that were sent and are not acknowledged.
pub mod State
pub mod History
pub mod Alarm
pub mod Newly
pub mod Send
pub mod Loss
pub mod Acks
pub mod Timeout
pub mod Queue
pub mod Closed
pub mod Invariant
pub mod Conservation
pub mod Steps
mod Tests
