-- ===== src/AckHandler/Sent/Steps/Timeouts.antt =====
-- src/sa-ecf/ackhandler/sent_packet_handler.go: the loop that queues all packets on a potentially failed path.
use ivsh.Common.{ℕ, zero, suc, ◌≤◌, ◌≡◌, refl, sym, ◌∙◌, arith, List, [], ◌∷◌, ◌++◌, length}
use mathlib.Core.List.{append_assoc, append-nil}
use ivsh.AckHandler.Packet.{Packet}
use ivsh.AckHandler.Sent.State.{
  SentPacketHandler, remove, queue_packet_for_retransmission, lose, queue_rto,
}
use ivsh.AckHandler.Sent.Timeout.{queue_all, retransmit_all_packets}
use ivsh.AckHandler.Sent.Invariant.{Inv}
use ivsh.AckHandler.Sent.Invariant.Firing.{queue_all-Inv}
use ivsh.AckHandler.Sent.Conservation.Acked.{remove-head}

abbrev Emptied : SentPacketHandler → SentPacketHandler → Type 0
Emptied h k =
    (k.packet_history ≡ []) × (k.retransmission_queue ≡ h.retransmission_queue ++ h.packet_history)

queue_all-Emptied :
    (rounds : ℕ) (h : SentPacketHandler)
    → length h.packet_history ≤ rounds
    → Emptied h (queue_all rounds h)
unfolding queue_all queue_rto lose queue_packet_for_retransmission
queue_all-Emptied zero h enough = go h.packet_history refl enough
  where
    go : (l : List Packet) → h.packet_history ≡ l → length l ≤ 0 → Emptied h h
    go [] same le = (same, rw same (sym (append-nil h.retransmission_queue)))
    go (p ∷ ps) same le = ground arith
queue_all-Emptied (suc rounds) h enough =
    go h.packet_history refl enough (λ k le. queue_all-Emptied rounds k le)
  where
    go :
        (l : List Packet)
        → h.packet_history ≡ l
        → length l ≤ suc rounds
        → ((k : SentPacketHandler)
            → length k.packet_history ≤ rounds
            → Emptied k (queue_all rounds k))
        → Emptied h (elim l [ [] ↦ h | p ∷ ps ↦ queue_all rounds (queue_rto p h) ])
    go [] same le rest = (same, rw same (sym (append-nil h.retransmission_queue)))
    go (p ∷ ps) same le rest =
        let tail : remove p.packet_number h.packet_history ≡ ps = rw same (remove-head p ps) in
        let (none_left, queued) = rest (queue_rto p h) (rw tail (omega arith)) in
        (none_left, queued ∙ rw (tail, same) (append_assoc h.retransmission_queue (p ∷ []) ps))

-- The loop ends within as many rounds as the history has packets: the history is then empty, its
-- packets stand behind the retransmission queue in their order, and no bytes are in flight.
pub retransmit_all_packets-Emptied :
    (h : SentPacketHandler)
    → Inv h
    → let k = retransmit_all_packets h in
      (k.packet_history ≡ [])
      × (k.retransmission_queue ≡ h.retransmission_queue ++ h.packet_history)
      × (k.bytes_in_flight ≡ 0)
unfolding retransmit_all_packets
retransmit_all_packets-Emptied h v =
    let (none_left, queued) = queue_all-Emptied (length h.packet_history) h (omega arith) in
    let w = (queue_all-Inv (length h.packet_history) h v).in_flight in
    (none_left, queued, w.counted ∙ rw none_left refl)
