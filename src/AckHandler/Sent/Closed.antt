-- ===== src/AckHandler/Sent/Closed.antt =====
-- src/sa-ecf/ackhandler/sent_packet_handler.go: what holds of the history, whatever packets leave it.
use ivsh.Common.{ℕ, zero, suc, ◌+◌, ◌%◌, ◌^◌, ◌≡◌, refl, List, [], ◌∷◌, Option, none, some, length}
use ivsh.AckHandler.Packet.{Packet}
use ivsh.AckHandler.Sent.State.{
  SentPacketHandler, Environment, remove, queue_packet_for_retransmission, lose, lose_all,
  queue_rto, on_packet_acked, acknowledge, acknowledge_all,
}
use ivsh.AckHandler.Sent.Loss.{
  find_lost, up_to, delay_until_lost, detect_lost_packets, set_inflight_as_lost,
}
use ivsh.AckHandler.Sent.Timeout.{back, retransmit_tlp, retransmit_oldest_packet, queue_all}

module _ (Q : List Packet → Type 0)
    (closed : (n : ℕ) (l : List Packet) → Q l → Q (remove n l)) where
  pub lose_all-Closed :
      (ps : List Packet) (h : SentPacketHandler)
      → Q h.packet_history
      → Q (lose_all ps h).packet_history
  unfolding lose_all lose queue_packet_for_retransmission
  lose_all-Closed [] h v = v
  lose_all-Closed (p ∷ ps) h v =
      lose_all-Closed ps (lose p h) (closed p.packet_number h.packet_history v)

  pub acknowledge_all-Closed :
      (ps : List Packet) (h : SentPacketHandler)
      → Q h.packet_history
      → Q (acknowledge_all ps h).packet_history
  unfolding acknowledge_all acknowledge on_packet_acked
  acknowledge_all-Closed [] h v = v
  acknowledge_all-Closed (p ∷ ps) h v =
      acknowledge_all-Closed ps (acknowledge p h) (closed p.packet_number h.packet_history v)

  pub detect_lost_packets-Closed :
      (env : Environment) (now : ℕ) (h : SentPacketHandler)
      → Q h.packet_history
      → Q (detect_lost_packets env now h).packet_history
  unfolding detect_lost_packets
  detect_lost_packets-Closed env now h v =
      let found = find_lost now (delay_until_lost env h) h.largest_acked none h.packet_history in
      lose_all-Closed found.0
        (record h { losses = (h.losses + length found.0) % 2 ^ 64; loss_time = found.1 }) v

  pub set_inflight_as_lost-Closed :
      (h : SentPacketHandler) → Q h.packet_history → Q (set_inflight_as_lost h).packet_history
  unfolding set_inflight_as_lost
  set_inflight_as_lost-Closed h v =
      let lost = up_to h.largest_acked h.packet_history in
      lose_all-Closed lost (record h { losses = (h.losses + length lost) % 2 ^ 64 }) v

  pub retransmit_tlp-Closed :
      (h : SentPacketHandler) → Q h.packet_history → Q (retransmit_tlp h).packet_history
  unfolding retransmit_tlp queue_packet_for_retransmission
  retransmit_tlp-Closed h v = go (back h.packet_history)
    where
      go :
          (last : Option Packet)
          → let k : SentPacketHandler = elim last [
            | none ↦ h
            | some p ↦ queue_packet_for_retransmission p h
          ] in
            Q k.packet_history
      go none = v
      go (some p) = closed p.packet_number h.packet_history v

  pub retransmit_oldest_packet-Closed :
      (h : SentPacketHandler) → Q h.packet_history → Q (retransmit_oldest_packet h).packet_history
  unfolding retransmit_oldest_packet queue_rto lose queue_packet_for_retransmission
  retransmit_oldest_packet-Closed h v = go h.packet_history
    where
      go :
          (l : List Packet)
          → let k : SentPacketHandler = elim l [ [] ↦ h | p ∷ ps ↦ queue_rto p h ] in
            Q k.packet_history
      go [] = v
      go (p ∷ ps) = closed p.packet_number h.packet_history v

  pub queue_all-Closed :
      (rounds : ℕ) (h : SentPacketHandler)
      → Q h.packet_history
      → Q (queue_all rounds h).packet_history
  unfolding queue_all queue_rto lose queue_packet_for_retransmission
  queue_all-Closed zero h v = v
  queue_all-Closed (suc rounds) h v = go h.packet_history (λ k w. queue_all-Closed rounds k w)
    where
      go :
          (l : List Packet)
          → ((k : SentPacketHandler) → Q k.packet_history → Q (queue_all rounds k).packet_history)
          → let k : SentPacketHandler = elim l [
            | [] ↦ h
            | p ∷ ps ↦ queue_all rounds (queue_rto p h)
          ] in
            Q k.packet_history
      go [] rest = v
      go (p ∷ ps) rest = rest (queue_rto p h) (closed p.packet_number h.packet_history v)

lose_all-alarm : (ps : List Packet) (h : SentPacketHandler) → (lose_all ps h).alarm ≡ h.alarm
unfolding lose_all lose queue_packet_for_retransmission
lose_all-alarm [] h = refl
lose_all-alarm (p ∷ ps) h = lose_all-alarm ps (lose p h)

pub acknowledge_all-alarm :
    (ps : List Packet) (h : SentPacketHandler) → (acknowledge_all ps h).alarm ≡ h.alarm
unfolding acknowledge_all acknowledge on_packet_acked
acknowledge_all-alarm [] h = refl
acknowledge_all-alarm (p ∷ ps) h = acknowledge_all-alarm ps (acknowledge p h)

pub set_inflight_as_lost-alarm : (h : SentPacketHandler) → (set_inflight_as_lost h).alarm ≡ h.alarm
unfolding set_inflight_as_lost
set_inflight_as_lost-alarm h =
    let lost = up_to h.largest_acked h.packet_history in
    lose_all-alarm lost (record h { losses = (h.losses + length lost) % 2 ^ 64 })
