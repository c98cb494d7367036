-- ===== src/FlowControl.antt =====
-- src/sa-ecf/internal/flowcontrol: flow control of streams and of the connection.
pub mod Controller
pub mod Manager
mod Tests
