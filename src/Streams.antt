-- ===== src/Streams.antt =====
-- src/sa-ecf/streams_map.go: the streams of a session.
pub mod Map
pub mod Walk
pub mod Lists
pub mod Invariant
pub mod Operations
pub mod Removing
pub mod Steps
pub mod Room
pub mod Opened
mod Tests
