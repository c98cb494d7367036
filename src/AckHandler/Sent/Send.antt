-- ===== src/AckHandler/Sent/Send.antt =====
-- src/sa-ecf/ackhandler/sent_packet_handler.go: sending a packet. `now` is what time.Now answers during
-- the operation.
use ivsh.Common.{
  ℕ, zero, suc, ◌+◌, ◌-◌, List, [], ◌∷◌, ◌++◌, Bool, true, false, Option, none, some, ltb, leb,
  if◌then◌else◌, length, drop, add64,
}
use ivsh.AckHandler.Packet.{Packet, strip_non_retransmittable_frames}
use ivsh.AckHandler.Sent.State.{SentPacketHandler, Environment, packet_sent}
use ivsh.AckHandler.Sent.Alarm.{update_loss_detection_alarm}

pub data Error : Type 0 where
  packet_number_not_increasing too_many_tracked_sent_packets : Error
  ack_for_unsent_packet duplicate_or_out_of_order_ack ack_for_skipped_packet : Error
  bug_wrong_packet : Error

abbrev pub max_tracked_sent_packets : ℕ
max_tracked_sent_packets = 5000

abbrev pub max_tracked_skipped_packets : ℕ
max_tracked_skipped_packets = 10

abbrev max_non_retransmittable_packets : ℕ
max_non_retransmittable_packets = 19

unfoldable pub should_send_retransmittable_packet : SentPacketHandler → Bool
should_send_retransmittable_packet h =
    leb max_non_retransmittable_packets h.num_non_retransmittable_packets

abbrev pub trim : List ℕ → List ℕ
trim l = if ltb max_tracked_skipped_packets (length l) then drop 1 l else l

-- The loop over the numbers between the last packet and this one, with the rounds left.
unfoldable pub skip_numbers : ℕ → ℕ → List ℕ → List ℕ
skip_numbers zero p l = l
skip_numbers (suc rounds) p l = skip_numbers rounds (p + 1) (trim (l ++ (p ∷ [])))

abbrev pub is_nonempty {ℓ} : {A : Type ℓ} → List A → Bool
is_nonempty [] = false
is_nonempty (x ∷ xs) = true

-- The packet as it is stored, and whether it is.
unfoldable pub record_sent : ℕ → Packet → Bool → SentPacketHandler → SentPacketHandler
record_sent now p retransmittable h =
    if retransmittable
    then record h {
      bytes_in_flight = add64 h.bytes_in_flight p.length;
      packet_history = h.packet_history ++ (record p { send_time = some now } ∷ []);
      num_non_retransmittable_packets = 0;
    }
    else record h { num_non_retransmittable_packets = h.num_non_retransmittable_packets + 1 }

unfoldable pub sent_packet :
    Environment → ℕ → Packet → SentPacketHandler → SentPacketHandler × Option Error
unfolding skip_numbers record_sent
sent_packet env now packet h =
    if leb packet.packet_number h.last_sent_packet_number
    then (h, some packet_number_not_increasing)
    else if ltb max_tracked_sent_packets
        (length h.retransmission_queue + length h.packet_history + 1)
    then (h, some too_many_tracked_sent_packets)
    else let p = record packet { frames = strip_non_retransmittable_frames packet.frames } in
      let retransmittable = is_nonempty p.frames in
      let h1 = record h {
        skipped_packets =
            skip_numbers (packet.packet_number - h.last_sent_packet_number - 1)
              (h.last_sent_packet_number + 1) h.skipped_packets;
        last_sent_packet_number = packet.packet_number;
        packets = add64 h.packets 1;
        last_sent_time = some now;
      } in
      let h2 = record_sent now p retransmittable h1 in
      let h3 = record h2 {
        calls =
            packet_sent now h2.bytes_in_flight p.packet_number p.length retransmittable ∷ h2.calls;
      } in
      (update_loss_detection_alarm env h3, none)
