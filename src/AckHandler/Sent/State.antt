-- ===== src/AckHandler/Sent/State.antt =====
-- src/sa-ecf/ackhandler/sent_packet_handler.go: the state, and the packets that leave the history.
-- A packet of the linked list is identified by its number, which no two of them share.
use ivsh.Common.{ℕ, List, [], ◌∷◌, ◌++◌, Bool, Option, none, ◌==◌, if◌then◌else◌, add64, sub64}
use ivsh.AckHandler.Packet.{Packet}
use ivsh.AckHandler.StopWaiting.{StopWaitingManager, queued_retransmission_for_packet_number}

-- The calls that change the congestion controller or the RTT statistics.
pub data Call : Type 0 where
  packet_sent : (now bytes_in_flight number bytes : ℕ) → Bool → Call
  packet_acked packet_lost : (number bytes bytes_in_flight : ℕ) → Call
  maybe_exit_slow_start : Call
  retransmission_timeout : Bool → Call
  update_rtt : (send_delta ack_delay now : ℕ) → Call

-- What the congestion controller and the RTT statistics answer after the calls so far, the last one
-- first. `on_rto` is the callback, if one is set.
pub record Environment : Type 0 where
  pub latest_rtt : List Call → ℕ
  pub smoothed_rtt : List Call → ℕ
  pub congestion_smoothed_rtt : List Call → ℕ
  pub retransmission_delay : List Call → ℕ
  pub congestion_window : List Call → ℕ
  pub on_rto : Option (Option ℕ → Bool)

pub record SentPacketHandler : Type 0 where
  pub last_sent_packet_number : ℕ
  pub skipped_packets : List ℕ
  pub num_non_retransmittable_packets : ℕ
  pub largest_acked : ℕ
  pub largest_received_packet_with_ack : ℕ
  pub packet_history : List Packet
  pub stop_waiting_manager : StopWaitingManager
  pub retransmission_queue : List Packet
  pub bytes_in_flight : ℕ
  pub calls : List Call
  pub rto_count : ℕ
  pub tlp_count : ℕ
  pub loss_time : Option ℕ
  pub last_sent_time : Option ℕ
  pub alarm : Option ℕ
  pub packets : ℕ
  pub retransmissions : ℕ
  pub losses : ℕ

unfoldable pub new_sent_packet_handler : SentPacketHandler
new_sent_packet_handler = record {
  last_sent_packet_number = 0;
  skipped_packets = [];
  num_non_retransmittable_packets = 0;
  largest_acked = 0;
  largest_received_packet_with_ack = 0;
  packet_history = [];
  stop_waiting_manager = record {
    largest_least_unacked_sent = 0;
    next_least_unacked = 0;
    last_stop_waiting_frame = none;
  };
  retransmission_queue = [];
  bytes_in_flight = 0;
  calls = [];
  rto_count = 0;
  tlp_count = 0;
  loss_time = none;
  last_sent_time = none;
  alarm = none;
  packets = 0;
  retransmissions = 0;
  losses = 0;
}

-- `packetHistory.Remove`
unfoldable pub remove : ℕ → List Packet → List Packet
remove n [] = []
remove n (p ∷ ps) = if p.packet_number == n then ps else p ∷ remove n ps

abbrev in_order : ℕ → List Packet → ℕ
in_order largest [] = largest
in_order largest (p ∷ ps) = sub64 p.packet_number 1

unfoldable pub largest_in_order_acked : SentPacketHandler → ℕ
largest_in_order_acked h = in_order h.largest_acked h.packet_history

unfoldable pub get_least_unacked : SentPacketHandler → ℕ
unfolding largest_in_order_acked
get_least_unacked h = add64 (largest_in_order_acked h) 1

unfoldable pub queue_packet_for_retransmission : Packet → SentPacketHandler → SentPacketHandler
unfolding remove
queue_packet_for_retransmission p h = record h {
  bytes_in_flight = sub64 h.bytes_in_flight p.length;
  retransmission_queue = h.retransmission_queue ++ (p ∷ []);
  packet_history = remove p.packet_number h.packet_history;
  stop_waiting_manager =
      queued_retransmission_for_packet_number p.packet_number h.stop_waiting_manager;
}

-- One round of the loops over lost packets.
unfoldable pub lose : Packet → SentPacketHandler → SentPacketHandler
unfolding queue_packet_for_retransmission
lose p h =
    let h' = queue_packet_for_retransmission p h in
    record h' { calls = packet_lost p.packet_number p.length h'.bytes_in_flight ∷ h'.calls }

unfoldable pub lose_all : List Packet → SentPacketHandler → SentPacketHandler
lose_all [] h = h
lose_all (p ∷ ps) h = lose_all ps (lose p h)

unfoldable pub queue_rto : Packet → SentPacketHandler → SentPacketHandler
unfolding lose
queue_rto p h = let h' = lose p h in record h' { losses = add64 h'.losses 1 }

unfoldable pub on_packet_acked : Packet → SentPacketHandler → SentPacketHandler
unfolding remove
on_packet_acked p h = record h {
  bytes_in_flight = sub64 h.bytes_in_flight p.length;
  rto_count = 0;
  tlp_count = 0;
  packet_history = remove p.packet_number h.packet_history;
}

-- One round of the loops over acknowledged packets.
unfoldable pub acknowledge : Packet → SentPacketHandler → SentPacketHandler
unfolding on_packet_acked
acknowledge p h =
    let h' = on_packet_acked p h in
    record h' { calls = packet_acked p.packet_number p.length h'.bytes_in_flight ∷ h'.calls }

unfoldable pub acknowledge_all : List Packet → SentPacketHandler → SentPacketHandler
acknowledge_all [] h = h
acknowledge_all (p ∷ ps) h = acknowledge_all ps (acknowledge p h)
