-- ===== src/AckHandler/Sent/Acks.antt =====
-- src/sa-ecf/ackhandler/sent_packet_handler.go: ACK and CLOSE_PATH frames. `now` is what time.Now answers during
-- the operation.
pub mod Branches
use ivsh.Common.{
  ℕ, ◌+◌, List, [], ◌∷◌, Bool, true, false, Option, none, some, ltb, leb, ◌==◌, if◌then◌else◌, drop,
}
use ivsh.Common.Result.{ok, err}
use ivsh.Wire.AckFrame.{AckFrame, ClosePathFrame, acks_packet, close_path_acks_packet}
use ivsh.AckHandler.Packet.{Packet}
use ivsh.AckHandler.StopWaiting
use ivsh.AckHandler.Sent.State.{
  SentPacketHandler, Environment, maybe_exit_slow_start, update_rtt, largest_in_order_acked,
  acknowledge_all,
}
use ivsh.AckHandler.Sent.Alarm.{update_loss_detection_alarm}
use ivsh.AckHandler.Sent.Newly.{
  determine_newly_acked_packets, determine_newly_acked_packets_close_path,
}
use ivsh.AckHandler.Sent.Loss.{since, detect_lost_packets, set_inflight_as_lost}
use ivsh.AckHandler.Sent.Send.{
  Error, ack_for_unsent_packet, duplicate_or_out_of_order_ack, ack_for_skipped_packet,
  bug_wrong_packet,
}

-- The send time of the packet with the largest acknowledged number, if it is in the history.
abbrev find_sent : ℕ → List Packet → Option (Option ℕ)
find_sent largest [] = none
find_sent largest (p ∷ ps) =
    if p.packet_number == largest
    then some p.send_time
    else if ltb largest p.packet_number
    then none
    else find_sent largest ps

-- maybeUpdateRTT and the call of MaybeExitSlowStart that follows an update. A negative duration,
-- which UpdateRTT ignores, is 0 here, which it ignores too.
unfoldable pub update_rtt_and_slow_start : ℕ → ℕ → AckFrame → SentPacketHandler → SentPacketHandler
update_rtt_and_slow_start now rcv_time ack h = record h {
  calls = elim (find_sent ack.largest_acked h.packet_history) [
    | none ↦ h.calls
    | some sent ↦
        maybe_exit_slow_start ∷ update_rtt (since rcv_time sent) ack.delay_time now ∷ h.calls
  ];
}

unfoldable pub any_acked : (ℕ → Bool) → List ℕ → Bool
any_acked acks [] = false
any_acked acks (p ∷ ps) = if acks p then true else any_acked acks ps

-- The index behind the last skipped number that is acknowledged in order.
unfoldable pub delete_index : ℕ → ℕ → ℕ → List ℕ → ℕ
delete_index lioa i found [] = found
delete_index lioa i found (p ∷ ps) =
    delete_index lioa (i + 1) (if leb p lioa then i + 1 else found) ps

unfoldable pub garbage_collect_skipped_packets : SentPacketHandler → SentPacketHandler
unfolding delete_index
garbage_collect_skipped_packets h = record h {
  skipped_packets =
      drop (delete_index (largest_in_order_acked h) 0 0 h.skipped_packets) h.skipped_packets;
}

-- What follows the listing of the acknowledged packets.
unfoldable pub process_acked :
    Environment → ℕ → AckFrame → List Packet → SentPacketHandler → SentPacketHandler
unfolding acknowledge_all detect_lost_packets garbage_collect_skipped_packets
process_acked env now ack acked h =
    let h1 =
      update_loss_detection_alarm env (detect_lost_packets env now (acknowledge_all acked h)) in
    let h2 = garbage_collect_skipped_packets h1 in
    record h2 { stop_waiting_manager = StopWaiting.received_ack ack h2.stop_waiting_manager }

unfoldable pub received_ack :
    Environment → ℕ → AckFrame → ℕ → ℕ → SentPacketHandler → SentPacketHandler × Option Error
unfolding any_acked update_rtt_and_slow_start process_acked
received_ack env now ack with_packet_number rcv_time h =
    if ltb h.last_sent_packet_number ack.largest_acked
    then (h, some ack_for_unsent_packet)
    else if leb with_packet_number h.largest_received_packet_with_ack
    then (h, some duplicate_or_out_of_order_ack)
    else let h1 = record h { largest_received_packet_with_ack = with_packet_number } in
      if leb ack.largest_acked (largest_in_order_acked h1)
      then (h1, none)
      else let h2 = record h1 { largest_acked = ack.largest_acked } in
        if any_acked (acks_packet ack) h2.skipped_packets
        then (h2, some ack_for_skipped_packet)
        else let h3 = update_rtt_and_slow_start now rcv_time ack h2 in
          elim (determine_newly_acked_packets ack h3.packet_history) [
            | ok acked ↦ (process_acked env now ack acked h3, none)
            | err e ↦ (h3, some bug_wrong_packet)
          ]

unfoldable pub received_close_path :
    ClosePathFrame → ℕ → SentPacketHandler → SentPacketHandler × Option Error
unfolding any_acked acknowledge_all set_inflight_as_lost garbage_collect_skipped_packets
received_close_path f with_packet_number h =
    if ltb h.last_sent_packet_number f.largest_acked
    then (h, some ack_for_unsent_packet)
    else if leb with_packet_number h.largest_received_packet_with_ack
    then (h, some duplicate_or_out_of_order_ack)
    else let h1 = record h { largest_received_packet_with_ack = with_packet_number } in
      if any_acked (close_path_acks_packet f) h1.skipped_packets
      then (h1, some ack_for_skipped_packet)
      else elim (determine_newly_acked_packets_close_path f h1.packet_history) [
        | ok acked ↦ (
          garbage_collect_skipped_packets (set_inflight_as_lost (acknowledge_all acked h1)),
          none,
        )
        | err e ↦ (h1, some bug_wrong_packet)
      ]
