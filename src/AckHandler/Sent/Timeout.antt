-- ===== src/AckHandler/Sent/Timeout.antt =====
-- src/sa-ecf/ackhandler/sent_packet_handler.go: what the alarm does. `now` is what time.Now answers during
-- the operation.
use ivsh.Common.{
  ℕ, zero, suc, ◌+◌, ◌%◌, ◌^◌, List, [], ◌∷◌, Bool, true, false, not, Option, none, some, ltb,
  if◌then◌else◌, length,
}
use ivsh.AckHandler.Packet.{Packet, is_retransmittable}
use ivsh.AckHandler.Sent.State.{
  SentPacketHandler, Environment, retransmission_timeout, queue_packet_for_retransmission,
  queue_rto,
}
use ivsh.AckHandler.Sent.Alarm.{max_tail_loss_probes, update_loss_detection_alarm}
use ivsh.AckHandler.Sent.Loss.{is_zero, detect_lost_packets}

unfoldable pub any_retransmittable : List Packet → Bool
any_retransmittable [] = false
any_retransmittable (p ∷ ps) = if is_retransmittable p then true else any_retransmittable ps

-- `packetHistory.Back()`
abbrev pub back : List Packet → Option Packet
back [] = none
back (p ∷ []) = some p
back (p ∷ q ∷ ps) = back (q ∷ ps)

unfoldable pub retransmit_tlp : SentPacketHandler → SentPacketHandler
retransmit_tlp h = elim (back h.packet_history) [
  | none ↦ h
  | some p ↦ queue_packet_for_retransmission p h
]

unfoldable pub retransmit_oldest_packet : SentPacketHandler → SentPacketHandler
retransmit_oldest_packet h = elim h.packet_history [ [] ↦ h | p ∷ ps ↦ queue_rto p h ]

-- The loop runs while the history is not empty; each round takes a packet out of it.
unfoldable pub queue_all : ℕ → SentPacketHandler → SentPacketHandler
unfolding retransmit_oldest_packet
queue_all zero h = h
queue_all (suc rounds) h = elim h.packet_history [
  | [] ↦ h
  | p ∷ ps ↦ queue_all rounds (queue_rto p h)
]

abbrev on_timeout : SentPacketHandler → SentPacketHandler
on_timeout h = record h { calls = retransmission_timeout true ∷ h.calls }

unfoldable pub retransmit_all_packets : SentPacketHandler → SentPacketHandler
unfolding queue_all
retransmit_all_packets h = on_timeout (queue_all (length h.packet_history) h)

unfoldable pub retransmit_oldest_two_packets : SentPacketHandler → SentPacketHandler
unfolding retransmit_oldest_packet
retransmit_oldest_two_packets h = on_timeout (retransmit_oldest_packet (retransmit_oldest_packet h))

abbrev pub potentially_failed : Option (Option ℕ → Bool) → Option ℕ → Bool
potentially_failed none t = false
potentially_failed (some on_rto) t = on_rto t

-- The three kinds of alarm.
unfoldable pub fire : Environment → ℕ → SentPacketHandler → SentPacketHandler
unfolding detect_lost_packets retransmit_tlp retransmit_all_packets retransmit_oldest_two_packets
fire env now h =
    if not (is_zero h.loss_time)
    then detect_lost_packets env now h
    else if ltb h.tlp_count max_tail_loss_probes
    then (let h' = retransmit_tlp h in record h' { tlp_count = (h'.tlp_count + 1) % 2 ^ 32 })
    else (let h' =
          if potentially_failed env.on_rto h.last_sent_time
          then retransmit_all_packets h
          else retransmit_oldest_two_packets h in
        record h' { rto_count = (h'.rto_count + 1) % 2 ^ 32 })

unfoldable pub on_alarm : Environment → ℕ → SentPacketHandler → SentPacketHandler
unfolding any_retransmittable fire
on_alarm env now h =
    if not (any_retransmittable h.packet_history)
    then record h { alarm = none }
    else update_loss_detection_alarm env (fire env now h)
