-- ===== src/AckHandler/Sent/Conservation.antt =====
-- src/sa-ecf/ackhandler/sent_packet_handler.go: no packet is forgotten and none is retransmitted
-- twice, said of any measure of packets: it adds up over the history and the retransmission queue.

pub mod Acked
use ivsh.Common.{
  ℕ, zero, suc, ◌+◌, ◌%◌, ◌^◌, ◌≤◌, ◌<◌, ◌≡◌, refl, sym, ap, ◌∙◌, arith, List, [], ◌∷◌, ◌++◌, Bool,
  Option, none, some, inl, inr, length, Among, All, sum_of, sum_of-append,
}
use ivsh.AckHandler.Packet.{Packet}
use ivsh.AckHandler.Sent.State.{
  SentPacketHandler, Environment, remove, queue_packet_for_retransmission, lose, lose_all,
  queue_rto, on_packet_acked, acknowledge, acknowledge_all,
}
use ivsh.AckHandler.Sent.Alarm.{update_loss_detection_alarm}
use ivsh.AckHandler.Sent.Newly.Filtered.{Ascending}
use ivsh.AckHandler.Sent.Loss.{delay_until_lost, detect_lost_packets, set_inflight_as_lost}
use ivsh.AckHandler.Sent.Timeout.{
  back, retransmit_tlp, retransmit_oldest_packet, queue_all, retransmit_all_packets,
  retransmit_oldest_two_packets, on_alarm,
}
use ivsh.AckHandler.Sent.History.{
  Chosen, Chosen-remove, sum_of-remove, remove-Ascending, find_lost-Chosen, up_to-Chosen,
}
use ivsh.AckHandler.Sent.Invariant.{Inv}
use ivsh.AckHandler.Sent.Invariant.Firing.{back-Among, on_alarm-elim}

-- What the handler still has to deliver.
abbrev pub outstanding : (Packet → ℕ) → SentPacketHandler → ℕ
outstanding f h = sum_of f h.packet_history + sum_of f h.retransmission_queue

abbrev pub Ordered : SentPacketHandler → Type 0
Ordered h = Ascending 0 h.packet_history

module _ (f : Packet → ℕ) where
  moved :
      (p : Packet) (l queue : List Packet)
      → Ascending 0 l
      → Among p l
      → sum_of f (remove p.packet_number l) + sum_of f (queue ++ (p ∷ []))
        ≡ sum_of f l + sum_of f queue
  moved p l queue v here =
      let taken = sum_of-remove f 0 p l v here in
      let put = sum_of-append f queue (p ∷ []) in omega arith

  queue-outstanding :
      (p : Packet) (h : SentPacketHandler)
      → Ordered h
      → Among p h.packet_history
      → outstanding f (queue_packet_for_retransmission p h) ≡ outstanding f h
  unfolding queue_packet_for_retransmission
  queue-outstanding p h v here = moved p h.packet_history h.retransmission_queue v here

  queue_rto-outstanding :
      (p : Packet) (h : SentPacketHandler)
      → Ordered h
      → Among p h.packet_history
      → outstanding f (queue_rto p h) ≡ outstanding f h
  unfolding queue_rto lose queue_packet_for_retransmission
  queue_rto-outstanding p h v here = moved p h.packet_history h.retransmission_queue v here

  queue_rto-Ordered : (p : Packet) (h : SentPacketHandler) → Ordered h → Ordered (queue_rto p h)
  unfolding queue_rto lose queue_packet_for_retransmission
  queue_rto-Ordered p h v = remove-Ascending p.packet_number 0 h.packet_history v

  pub lose_all-outstanding :
      (a : ℕ) (ps : List Packet) (h : SentPacketHandler)
      → Ordered h
      → Chosen a ps h.packet_history
      → outstanding f (lose_all ps h) ≡ outstanding f h
  unfolding lose_all lose queue_packet_for_retransmission
  lose_all-outstanding a [] h v c = refl
  lose_all-outstanding a (p ∷ ps) h v (asc, (here, among)) =
      lose_all-outstanding p.packet_number ps (lose p h)
        (remove-Ascending p.packet_number 0 h.packet_history v)
        (Chosen-remove a p ps h.packet_history (asc, (here, among)))
      ∙ moved p h.packet_history h.retransmission_queue v here

  pub detect_lost_packets-outstanding :
      (env : Environment) (now : ℕ) (h : SentPacketHandler)
      → Ordered h
      → outstanding f (detect_lost_packets env now h) ≡ outstanding f h
  unfolding detect_lost_packets
  detect_lost_packets-outstanding env now h v =
      lose_all-outstanding 0 _ _ v
        (find_lost-Chosen now (delay_until_lost env h) h.largest_acked none 0 h.packet_history v)

  pub set_inflight_as_lost-outstanding :
      (h : SentPacketHandler) → Ordered h → outstanding f (set_inflight_as_lost h) ≡ outstanding f h
  unfolding set_inflight_as_lost
  set_inflight_as_lost-outstanding h v =
      lose_all-outstanding 0 _ _ v (up_to-Chosen h.largest_acked 0 h.packet_history v)

  retransmit_tlp-outstanding :
      (h : SentPacketHandler) → Ordered h → outstanding f (retransmit_tlp h) ≡ outstanding f h
  unfolding retransmit_tlp
  retransmit_tlp-outstanding h v = go (back h.packet_history) refl
    where
      go :
          (last : Option Packet)
          → back h.packet_history ≡ last
          → outstanding f (elim last [ none ↦ h | some p ↦ queue_packet_for_retransmission p h ])
            ≡ outstanding f h
      go none same = refl
      go (some p) same = queue-outstanding p h v (back-Among h.packet_history p same)

  oldest-Ordered : (h : SentPacketHandler) → Ordered h → Ordered (retransmit_oldest_packet h)
  unfolding retransmit_oldest_packet
  oldest-Ordered h v = go h.packet_history
    where
      go : (l : List Packet) → Ordered (elim l [ [] ↦ h | p ∷ ps ↦ queue_rto p h ])
      go [] = v
      go (p ∷ ps) = queue_rto-Ordered p h v

  oldest-outstanding :
      (h : SentPacketHandler)
      → Ordered h
      → outstanding f (retransmit_oldest_packet h) ≡ outstanding f h
  unfolding retransmit_oldest_packet
  oldest-outstanding h v = go h.packet_history refl
    where
      go :
          (l : List Packet)
          → h.packet_history ≡ l
          → outstanding f (elim l [ [] ↦ h | p ∷ ps ↦ queue_rto p h ]) ≡ outstanding f h
      go [] same = refl
      go (p ∷ ps) same = queue_rto-outstanding p h v (rw same (inl refl))

  queue_all-outstanding :
      (rounds : ℕ) (h : SentPacketHandler)
      → Ordered h
      → outstanding f (queue_all rounds h) ≡ outstanding f h
  unfolding queue_all
  queue_all-outstanding zero h v = refl
  queue_all-outstanding (suc rounds) h v =
      go h.packet_history refl (λ k w. queue_all-outstanding rounds k w)
    where
      go :
          (l : List Packet)
          → h.packet_history ≡ l
          → ((k : SentPacketHandler)
              → Ordered k
              → outstanding f (queue_all rounds k) ≡ outstanding f k)
          → outstanding f (elim l [ [] ↦ h | p ∷ ps ↦ queue_all rounds (queue_rto p h) ])
            ≡ outstanding f h
      go [] same rest = refl
      go (p ∷ ps) same rest =
          rest (queue_rto p h) (queue_rto-Ordered p h v)
          ∙ queue_rto-outstanding p h v (rw same (inl refl))

-- Whatever the alarm does, every packet that was in the history or in the retransmission queue is in one
-- of them afterwards, as often as before: any measure of packets adds up to the same.
pub on_alarm-outstanding :
    (env : Environment) (now : ℕ) (f : Packet → ℕ) (h : SentPacketHandler)
    → Inv h
    → outstanding f (on_alarm env now h) ≡ outstanding f h
unfolding retransmit_all_packets retransmit_oldest_two_packets update_loss_detection_alarm
on_alarm-outstanding env now f h v =
    let ordered = v.in_flight.ascending in
    on_alarm-elim env now h (λ k. outstanding f k ≡ outstanding f h) (λ idle. refl)
      (λ early. detect_lost_packets-outstanding f env now h ordered)
      (λ probe. retransmit_tlp-outstanding f h ordered)
      (λ failed. queue_all-outstanding f (length h.packet_history) h ordered)
      (λ alive.
        oldest-outstanding f _ (oldest-Ordered f h ordered) ∙ oldest-outstanding f h ordered)
