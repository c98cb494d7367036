-- ===== src/Scheduler.antt =====
-- src/sa-ecf/path_scheduler.go: the choice of the path that sends next.
pub mod Paths
pub mod RoundRobin
pub mod LowLatency
pub mod CompletionFirst
mod Tests
