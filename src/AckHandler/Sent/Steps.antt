-- ===== src/AckHandler/Sent/Steps.antt =====
-- src/sa-ecf/ackhandler/sent_packet_handler.go: runs of the handler, one operation after the other.
pub mod Errors
pub mod Runs
pub mod Alarms
pub mod Timeouts
pub mod AlarmSet
pub mod AlarmRuns
use ivsh.Common.{ℕ, List, [], ◌∷◌, Option, none, Bool}
use ivsh.Wire.AckFrame.{AckFrame, ClosePathFrame}
use ivsh.AckHandler.Packet.{Packet}
use ivsh.AckHandler.Sent.State.{SentPacketHandler, Environment}
use ivsh.AckHandler.Sent.Send.{Error, sent_packet}
use ivsh.AckHandler.Sent.Loss.{set_inflight_as_lost}
use ivsh.AckHandler.Sent.Acks.{received_ack, received_close_path}
use ivsh.AckHandler.Sent.Timeout.{on_alarm}
use ivsh.AckHandler.Sent.Queue.{
  dequeue_packet_for_retransmission, duplicate_packet, get_stop_waiting_frame,
}

-- The operations that change the handler, with what they are called with.
pub data Event : Type 0 where
  sends : Environment → (now : ℕ) → Packet → Event
  acks : Environment → (now : ℕ) → AckFrame → (with_packet_number rcv_time : ℕ) → Event
  closes : ClosePathFrame → (with_packet_number : ℕ) → Event
  fires : Environment → (now : ℕ) → Event
  loses_inflight dequeues : Event
  duplicates : Packet → Event
  gets_stop_waiting : Bool → Event

-- The state after an operation, and the error that it returns.
unfoldable pub step : Event → SentPacketHandler → SentPacketHandler × Option Error
step (sends env now p) h = sent_packet env now p h
step (acks env now ack with_packet_number rcv_time) h =
    received_ack env now ack with_packet_number rcv_time h
step (closes f with_packet_number) h = received_close_path f with_packet_number h
step (fires env now) h = (on_alarm env now h, none)
step loses_inflight h = (set_inflight_as_lost h, none)
step dequeues h = ((dequeue_packet_for_retransmission h).0, none)
step (duplicates p) h = (duplicate_packet p h, none)
step (gets_stop_waiting force) h = ((get_stop_waiting_frame force h).0, none)

unfoldable pub run : List Event → SentPacketHandler → SentPacketHandler
unfolding step
run [] h = h
run (e ∷ es) h = run es (step e h).0
