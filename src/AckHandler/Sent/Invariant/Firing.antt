-- ===== src/AckHandler/Sent/Invariant/Firing.antt =====
-- src/sa-ecf/ackhandler/sent_packet_handler.go: the alarm and the retransmission queue keep the invariant.
use ivsh.Common.{
  ℕ, zero, suc, ◌+◌, ◌%◌, ◌^◌, ◌≡◌, refl, List, [], ◌∷◌, true, false, Option, none, some, ltb, inl,
  inr, Bool-cases, length, Among,
}
use ivsh.AckHandler.Packet.{Packet}
use ivsh.AckHandler.Sent.State.{
  SentPacketHandler, Environment, Call, queue_packet_for_retransmission, lose, queue_rto,
}
use ivsh.AckHandler.Sent.Alarm.{max_tail_loss_probes, update_loss_detection_alarm}
use ivsh.AckHandler.Sent.Loss.{is_zero, detect_lost_packets}
use ivsh.AckHandler.Sent.Timeout.{
  back, any_retransmittable, retransmit_tlp, retransmit_oldest_packet, queue_all,
  retransmit_all_packets, retransmit_oldest_two_packets, potentially_failed, fire, on_alarm,
}
use ivsh.AckHandler.Sent.Invariant.{Inv, remove-InFlight}
use ivsh.AckHandler.Sent.Invariant.Sending.{alarm-Inv}
use ivsh.AckHandler.Sent.Invariant.Receiving.{detect_lost_packets-Inv}

pub back-Among : (l : List Packet) (p : Packet) → back l ≡ some p → Among p l
back-Among [] p h = cc
back-Among (q ∷ []) p h = inl (cc)
back-Among (q ∷ r ∷ l) p h = inr (back-Among (r ∷ l) p h)

queue-Inv :
    (p : Packet) (h : SentPacketHandler)
    → Inv h
    → Among p h.packet_history
    → Inv (queue_packet_for_retransmission p h)
unfolding queue_packet_for_retransmission
queue-Inv p h v here = record {
  in_flight = remove-InFlight _ _ p h.packet_history v.in_flight here;
  few_skipped = v.few_skipped;
}

queue_rto-Inv :
    (p : Packet) (h : SentPacketHandler) → Inv h → Among p h.packet_history → Inv (queue_rto p h)
unfolding queue_rto lose queue_packet_for_retransmission
queue_rto-Inv p h v here = record {
  in_flight = remove-InFlight _ _ p h.packet_history v.in_flight here;
  few_skipped = v.few_skipped;
}

retransmit_tlp-Inv : (h : SentPacketHandler) → Inv h → Inv (retransmit_tlp h)
unfolding retransmit_tlp
retransmit_tlp-Inv h v = go (back h.packet_history) refl
  where
    go :
        (last : Option Packet)
        → back h.packet_history ≡ last
        → Inv (elim last [ none ↦ h | some p ↦ queue_packet_for_retransmission p h ])
    go none same = v
    go (some p) same = queue-Inv p h v (back-Among h.packet_history p same)

retransmit_oldest_packet-Inv : (h : SentPacketHandler) → Inv h → Inv (retransmit_oldest_packet h)
unfolding retransmit_oldest_packet
retransmit_oldest_packet-Inv h v = go h.packet_history refl
  where
    go : (l : List Packet) → h.packet_history ≡ l → Inv (elim l [ [] ↦ h | p ∷ ps ↦ queue_rto p h ])
    go [] same = v
    go (p ∷ ps) same = queue_rto-Inv p h v (rw same (inl refl))

pub queue_all-Inv : (rounds : ℕ) (h : SentPacketHandler) → Inv h → Inv (queue_all rounds h)
unfolding queue_all
queue_all-Inv zero h v = v
queue_all-Inv (suc rounds) h v = go h.packet_history refl (λ k w. queue_all-Inv rounds k w)
  where
    go :
        (l : List Packet)
        → h.packet_history ≡ l
        → ((k : SentPacketHandler) → Inv k → Inv (queue_all rounds k))
        → Inv (elim l [ [] ↦ h | p ∷ ps ↦ queue_all rounds (queue_rto p h) ])
    go [] same rest = v
    go (p ∷ ps) same rest = rest (queue_rto p h) (queue_rto-Inv p h v (rw same (inl refl)))

counted-Inv :
    (tlp rto : ℕ) (calls : List Call) (h : SentPacketHandler)
    → Inv h
    → Inv (record h { tlp_count = tlp; rto_count = rto; calls = calls })
counted-Inv tlp rto calls h v = record { in_flight = v.in_flight; few_skipped = v.few_skipped }

-- The three kinds of alarm, and the ways in which an alarm ends.
pub on_alarm-elim :
    (env : Environment) (now : ℕ) (h : SentPacketHandler) (P : SentPacketHandler → Type 0)
    → (any_retransmittable h.packet_history ≡ false → P (record h { alarm = none }))
    → (is_zero h.loss_time ≡ false
        → P (update_loss_detection_alarm env (detect_lost_packets env now h)))
    → (is_zero h.loss_time ≡ true
        → P (
            update_loss_detection_alarm env
              (let h' = retransmit_tlp h in record h' { tlp_count = (h'.tlp_count + 1) % 2 ^ 32 })))
    → (is_zero h.loss_time ≡ true
        → P (
            update_loss_detection_alarm env (
              let h' = retransmit_all_packets h in
              record h' { rto_count = (h'.rto_count + 1) % 2 ^ 32 })))
    → (is_zero h.loss_time ≡ true
        → P (
            update_loss_detection_alarm env (
              let h' = retransmit_oldest_two_packets h in
              record h' { rto_count = (h'.rto_count + 1) % 2 ^ 32 })))
    → P (on_alarm env now h)
unfolding on_alarm fire
on_alarm-elim env now h P on_idle on_loss on_probe on_failed on_timeout =
    elim (Bool-cases (any_retransmittable h.packet_history)) [
      | inr idle ↦ rw idle (on_idle idle)
      | inl busy ↦ elim (Bool-cases (is_zero h.loss_time)) [
        | inr early ↦ rw (busy, early) (on_loss early)
        | inl late ↦ elim (Bool-cases (ltb h.tlp_count max_tail_loss_probes)) [
          | inl probe ↦ rw (busy, late, probe) (on_probe late)
          | inr probed ↦ elim (Bool-cases (potentially_failed env.on_rto h.last_sent_time)) [
            | inl failed ↦ rw (busy, late, probed, failed) (on_failed late)
            | inr alive ↦ rw (busy, late, probed, alive) (on_timeout late)
          ]
        ]
      ]
    ]

-- An alarm keeps the invariant.
pub on_alarm-Inv :
    (env : Environment) (now : ℕ) (h : SentPacketHandler) → Inv h → Inv (on_alarm env now h)
unfolding retransmit_all_packets retransmit_oldest_two_packets
on_alarm-Inv env now h v =
    on_alarm-elim env now h Inv
      (λ idle. record { in_flight = v.in_flight; few_skipped = v.few_skipped })
      (λ early. alarm-Inv env _ (detect_lost_packets-Inv env now h v))
      (λ probe. alarm-Inv env _ (counted-Inv _ _ _ (retransmit_tlp h) (retransmit_tlp-Inv h v)))
      (λ failed.
        alarm-Inv env _ (counted-Inv _ _ _ _ (queue_all-Inv (length h.packet_history) h v)))
      (λ alive.
        alarm-Inv env _
          (counted-Inv _ _ _ _ (retransmit_oldest_packet-Inv _ (retransmit_oldest_packet-Inv h v))))
