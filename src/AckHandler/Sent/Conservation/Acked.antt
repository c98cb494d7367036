-- ===== src/AckHandler/Sent/Conservation/Acked.antt =====
-- src/sa-ecf/ackhandler/sent_packet_handler.go: an ACK frame takes the packets that it acknowledges out
-- of the history, and no others are forgotten.
use ivsh.Common.{
  ℕ, ◌+◌, ◌≤◌, ◌<◌, ◌≡◌, refl, ap, ◌∙◌, arith, List, [], ◌∷◌, Bool, true, false, not, ltb, leb,
  ◌==◌, none, inl, inr, Bool-cases, All, All-map, filter, sum_of,
}
use ivsh.Wire.AckFrame.{AckFrame, acks_packet, validate_ack_ranges}
use ivsh.AckHandler.Packet.{Packet}
use ivsh.AckHandler.Sent.State.{
  SentPacketHandler, Environment, remove, on_packet_acked, acknowledge, acknowledge_all,
  largest_in_order_acked,
}
use ivsh.AckHandler.Sent.Alarm.{update_loss_detection_alarm}
use ivsh.AckHandler.Sent.Newly.Filtered.{Ascending}
use ivsh.AckHandler.Sent.Newly.Frames.{AreInside, determine_newly_acked_packets-filter}
use ivsh.AckHandler.Sent.Acks.{
  any_acked, update_rtt_and_slow_start, process_acked, received_ack,
  garbage_collect_skipped_packets,
}
use ivsh.AckHandler.Sent.Acks.Branches.{entered}
use ivsh.AckHandler.Sent.History.{
  Chosen, Chosen-remove, sum_of-remove, remove-All, remove-Ascending, filter-Chosen,
}
use ivsh.AckHandler.Sent.Invariant.{Inv}
use ivsh.AckHandler.Sent.Closed.{detect_lost_packets-Closed}
use ivsh.AckHandler.Sent.Conservation.{Ordered, outstanding, detect_lost_packets-outstanding}

remove_all : List Packet → List Packet → List Packet
remove_all [] l = l
remove_all (p ∷ ps) l = remove_all ps (remove p.packet_number l)

remove_all-skip :
    (p : Packet) (a : ℕ) (qs ps : List Packet)
    → p.packet_number ≤ a
    → Ascending a qs
    → remove_all qs (p ∷ ps) ≡ p ∷ remove_all qs ps
unfolding remove_all remove
remove_all-skip p a [] ps le v = refl
remove_all-skip p a (q ∷ qs) ps le (lt, v) =
    let other : p.packet_number == q.packet_number ≡ false = ground arith in
    rw other (remove_all-skip p q.packet_number qs (remove q.packet_number ps) (omega arith) v)

pub remove-head : (p : Packet) (ps : List Packet) → remove p.packet_number (p ∷ ps) ≡ ps
unfolding remove
remove-head p ps = ground arith

remove_all-filter :
    (test : Packet → Bool) (a : ℕ) (l : List Packet)
    → Ascending a l
    → remove_all (filter test l) l ≡ filter (λ p. not (test p)) l
unfolding remove_all remove
remove_all-filter test a [] v = refl
remove_all-filter test a (p ∷ ps) (lt, v) =
    let rest = remove_all-filter test p.packet_number ps v in
    elim (Bool-cases (test p)) [
      | inl holds ↦
          rw holds
            (ap (λ (m : List Packet). remove_all (filter test ps) m) (remove-head p ps) ∙ rest)
      | inr fails ↦ rw fails (
          remove_all-skip p p.packet_number (filter test ps) ps (omega arith)
            (filter-Chosen test p.packet_number ps v).0
          ∙ ap (λ (l : List Packet). p ∷ l) rest)
    ]

acknowledge_all-history :
    (ps : List Packet) (h : SentPacketHandler)
    → (acknowledge_all ps h).packet_history ≡ remove_all ps h.packet_history
unfolding acknowledge_all acknowledge on_packet_acked remove_all
acknowledge_all-history [] h = refl
acknowledge_all-history (p ∷ ps) h = acknowledge_all-history ps (acknowledge p h)

acknowledge_all-Ordered :
    (ps : List Packet) (h : SentPacketHandler) → Ordered h → Ordered (acknowledge_all ps h)
unfolding acknowledge_all acknowledge on_packet_acked
acknowledge_all-Ordered [] h v = v
acknowledge_all-Ordered (p ∷ ps) h v =
    acknowledge_all-Ordered ps (acknowledge p h)
      (remove-Ascending p.packet_number 0 h.packet_history v)

acknowledge_all-outstanding :
    (f : Packet → ℕ) (a : ℕ) (ps : List Packet) (h : SentPacketHandler)
    → Ordered h
    → Chosen a ps h.packet_history
    → outstanding f (acknowledge_all ps h) + sum_of f ps ≡ outstanding f h
unfolding acknowledge_all acknowledge on_packet_acked
acknowledge_all-outstanding f a [] h v c = omega arith
acknowledge_all-outstanding f a (p ∷ ps) h v (asc, (here, among)) =
    let rest =
      acknowledge_all-outstanding f p.packet_number ps (acknowledge p h)
        (remove-Ascending p.packet_number 0 h.packet_history v)
        (Chosen-remove a p ps h.packet_history (asc, (here, among))) in
    let taken = sum_of-remove f 0 p h.packet_history v here in omega arith

filter-All : (test : Packet → Bool) (l : List Packet) → All (λ p. test p ≡ true) (filter test l)
filter-All test [] = tt
filter-All test (p ∷ ps) =
    let rest = filter-All test ps in
    elim (Bool-cases (test p)) [ inl holds ↦ rw holds (holds, rest) | inr fails ↦ rw fails rest ]

-- The frame passes the checks of ReceivedAck: it acknowledges something new, and nothing that was
-- not sent.
pub record IsAccepted (ack : AckFrame) (with_packet_number : ℕ) (h : SentPacketHandler)
    : Type 0 where
  pub sent : ack.largest_acked ≤ h.last_sent_packet_number
  pub fresh : h.largest_received_packet_with_ack < with_packet_number
  pub higher : largest_in_order_acked h < ack.largest_acked
  pub no_skipped : any_acked (acks_packet ack) h.skipped_packets ≡ false
  pub ranges : validate_ack_ranges ack ≡ true
  pub inside : AreInside ack.ack_ranges

module _ (env : Environment) (now : ℕ) (ack : AckFrame) (with_packet_number rcv_time : ℕ)
    (h : SentPacketHandler) where
  abbrev acked : List Packet
  acked = filter (λ p. acks_packet ack p.packet_number) h.packet_history

  accepted :
      Inv h
      → IsAccepted ack with_packet_number h
      → received_ack env now ack with_packet_number rcv_time h
        ≡ (process_acked env now ack acked (entered now ack with_packet_number rcv_time h), none)
  unfolding received_ack entered update_rtt_and_slow_start largest_in_order_acked
  accepted v a =
      let sent : ltb h.last_sent_packet_number ack.largest_acked ≡ false = ground (arith, a.sent) in
      let fresh : leb with_packet_number h.largest_received_packet_with_ack ≡ false =
        ground (arith, a.fresh) in
      let higher : leb ack.largest_acked (
            largest_in_order_acked
              (record h { largest_received_packet_with_ack = with_packet_number }))
          ≡ false =
        ground (arith, a.higher) in
      rw
        (
          sent,
          fresh,
          higher,
          a.no_skipped,
          determine_newly_acked_packets-filter ack 0 h.packet_history a.ranges a.inside
              v.in_flight.ascending,
        )
        refl

  process_acked-outstanding :
      (f : Packet → ℕ) (k : SentPacketHandler)
      → Ordered k
      → k.packet_history ≡ h.packet_history
      → outstanding f (process_acked env now ack acked k) + sum_of f acked ≡ outstanding f k
  unfolding process_acked garbage_collect_skipped_packets update_loss_detection_alarm
  process_acked-outstanding f k v same =
      let chosen : Chosen 0 acked k.packet_history =
        rw same (filter-Chosen _ 0 h.packet_history (rw same at v)) in
      let lost =
        detect_lost_packets-outstanding f env now (acknowledge_all acked k)
          (acknowledge_all-Ordered acked k v) in
      let gone = acknowledge_all-outstanding f 0 acked k v chosen in omega arith

  process_acked-history :
      (k : SentPacketHandler)
      → Ordered k
      → k.packet_history ≡ h.packet_history
      → All
          (λ p. acks_packet ack p.packet_number ≡ false)
          (process_acked env now ack acked k).packet_history
  unfolding process_acked garbage_collect_skipped_packets update_loss_detection_alarm
  process_acked-history k v same =
      let kept = filter-All (λ p. not (acks_packet ack p.packet_number)) h.packet_history in
      let left : (acknowledge_all acked k).packet_history
          ≡ filter (λ p. not (acks_packet ack p.packet_number)) h.packet_history =
        acknowledge_all-history acked k
        ∙ (ap (λ (l : List Packet). remove_all acked l) same
            ∙ remove_all-filter _ 0 h.packet_history (rw same at v)) in
      let start : All (λ p. acks_packet ack p.packet_number ≡ false)
          (acknowledge_all acked k).packet_history =
        rw left (All-map (λ p refused. ground (arith, refused)) _ kept) in
      detect_lost_packets-Closed _
        (λ n l. remove-All (λ p. acks_packet ack p.packet_number ≡ false) n l) env now
        (acknowledge_all acked k) start

-- An ACK frame that passes the checks is processed without an error. The packets of the history that
-- it acknowledges are in the history no more, and every other packet that was in the history or in the
-- retransmission queue is in one of them afterwards, as often as before.
pub received_ack-acked :
    (env : Environment) (now : ℕ) (ack : AckFrame) (with_packet_number rcv_time : ℕ)
    (f : Packet → ℕ) (h : SentPacketHandler)
    → Inv h
    → IsAccepted ack with_packet_number h
    → let r = received_ack env now ack with_packet_number rcv_time h in
      (r.1 ≡ none)
      × All (λ p. acks_packet ack p.packet_number ≡ false) r.0.packet_history
      × (outstanding f r.0
            + sum_of f (filter (λ p. acks_packet ack p.packet_number) h.packet_history)
          ≡ outstanding f h)
unfolding entered update_rtt_and_slow_start
received_ack-acked env now ack with_packet_number rcv_time f h v a =
    let ordered = v.in_flight.ascending in
    rw (accepted env now ack with_packet_number rcv_time h v a) (
      refl,
      process_acked-history env now ack with_packet_number rcv_time h
          (entered now ack with_packet_number rcv_time h) ordered refl,
      process_acked-outstanding env now ack with_packet_number rcv_time h f
          (entered now ack with_packet_number rcv_time h) ordered refl,
    )
