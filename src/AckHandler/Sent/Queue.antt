-- ===== src/AckHandler/Sent/Queue.antt =====
-- src/sa-ecf/ackhandler/sent_packet_handler.go: the retransmission queue, and whether a packet may be sent.
use ivsh.Common.{
  ◌+◌, [], ◌∷◌, ◌++◌, Bool, not, ◌&&◌, ◌||◌, Option, none, some, ltb, leb, length, add64,
}
use ivsh.Wire.Control.{StopWaitingFrame}
use ivsh.AckHandler.Packet.{Packet}
use ivsh.AckHandler.StopWaiting
use ivsh.AckHandler.Sent.State.{SentPacketHandler, Environment}
use ivsh.AckHandler.Sent.Send.{is_nonempty, max_tracked_sent_packets}

unfoldable pub dequeue_packet_for_retransmission :
    SentPacketHandler → SentPacketHandler × Option Packet
dequeue_packet_for_retransmission h = elim h.retransmission_queue [
  | [] ↦ (h, none)
  | p ∷ ps ↦
      (record h { retransmission_queue = ps; retransmissions = add64 h.retransmissions 1 }, some p)
]

unfoldable pub duplicate_packet : Packet → SentPacketHandler → SentPacketHandler
duplicate_packet p h = record h { retransmission_queue = h.retransmission_queue ++ (p ∷ []) }

unfoldable pub get_stop_waiting_frame :
    Bool → SentPacketHandler → SentPacketHandler × Option StopWaitingFrame
get_stop_waiting_frame force h =
    let (manager, frame) = StopWaiting.get_stop_waiting_frame force h.stop_waiting_manager in
    (record h { stop_waiting_manager = manager }, frame)

unfoldable pub sending_allowed : Environment → SentPacketHandler → Bool
sending_allowed env h =
    let congestion_limited = ltb (env.congestion_window h.calls) h.bytes_in_flight in
    let max_tracked_limited =
      leb max_tracked_sent_packets (length h.retransmission_queue + length h.packet_history) in
    let have_retransmissions = is_nonempty h.retransmission_queue in
    not max_tracked_limited && (not congestion_limited || have_retransmissions)
