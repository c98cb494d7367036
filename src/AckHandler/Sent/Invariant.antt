-- ===== src/AckHandler/Sent/Invariant.antt =====
-- src/sa-ecf/ackhandler/sent_packet_handler.go: what holds of the handler between two operations.
pub mod Sending
pub mod Receiving
pub mod Firing
use ivsh.Common.{
  ℕ, ◌+◌, ◌-◌, ◌*◌, ◌%◌, ◌^◌, ◌≤◌, ◌<◌, ◌≡◌, refl, sym, ap, ◌∙◌, arith, List, [], ◌∷◌, ◌++◌, All,
  All-map, Among, inl, inr, sum_of, sum_of-append, length, length-append, sub64, add64, IsU64,
}
use ivsh.AckHandler.Packet.{Packet}
use ivsh.AckHandler.Sent.State.{
  SentPacketHandler, remove, queue_packet_for_retransmission, lose, lose_all, on_packet_acked,
  acknowledge, acknowledge_all,
}
use ivsh.AckHandler.Sent.Send.{max_tracked_sent_packets, max_tracked_skipped_packets}
use ivsh.AckHandler.Sent.Newly.Filtered.{Ascending}
use ivsh.AckHandler.Sent.History.{
  Chosen, Chosen-remove, remove-All, remove-Ascending, length-remove, sum_of-remove,
}

abbrev pub size : Packet → ℕ
size p = p.length

-- The history is in the order of the packet numbers, none of which is above the last one sent; it
-- holds 5000 packets at most; and the bytes in flight are those of its packets.
pub record InFlight (last bytes : ℕ) (l : List Packet) : Type 0 where
  pub ascending : Ascending 0 l
  pub sent : All (λ (p : Packet). p.packet_number ≤ last) l
  pub sized : All (λ (p : Packet). IsU64 p.length) l
  pub tracked : length l ≤ max_tracked_sent_packets
  pub counted : bytes ≡ sum_of size l % 2 ^ 64

pub record Inv (h : SentPacketHandler) : Type 0 where
  pub in_flight : InFlight h.last_sent_packet_number h.bytes_in_flight h.packet_history
  pub few_skipped : length h.skipped_packets ≤ max_tracked_skipped_packets

Among-All : (P : Packet → Type 0) (p : Packet) (l : List Packet) → Among p l → All P l → P p
Among-All P p [] x h = elim x [ ]
Among-All P p (q ∷ qs) (inl same) (x, h) = rw same x
Among-All P p (q ∷ qs) (inr later) (x, h) = Among-All P p qs later h

sub64-sum : (s n t : ℕ) → n < 2 ^ 64 → s + n ≡ t → sub64 (t % 2 ^ 64) n ≡ s % 2 ^ 64
sub64-sum s n t lt h = omega arith

pub remove-InFlight :
    (last bytes : ℕ) (p : Packet) (l : List Packet)
    → InFlight last bytes l
    → Among p l
    → InFlight last (sub64 bytes p.length) (remove p.packet_number l)
remove-InFlight last bytes p l v here = record {
  ascending = remove-Ascending p.packet_number 0 l v.ascending;
  sent = remove-All _ p.packet_number l v.sent;
  sized = remove-All _ p.packet_number l v.sized;
  tracked = let fewer = length-remove p.packet_number l in let t = v.tracked in omega arith;
  counted = rw v.counted (
      sub64-sum _ p.length _ (Among-All (λ q. IsU64 q.length) p l here v.sized)
        (sum_of-remove size 0 p l v.ascending here));
}

lose-Inv : (p : Packet) (h : SentPacketHandler) → Inv h → Among p h.packet_history → Inv (lose p h)
unfolding lose queue_packet_for_retransmission
lose-Inv p h v here = record {
  in_flight = remove-InFlight _ _ p h.packet_history v.in_flight here;
  few_skipped = v.few_skipped;
}

pub lose_all-Inv :
    (a : ℕ) (ps : List Packet) (h : SentPacketHandler)
    → Inv h
    → Chosen a ps h.packet_history
    → Inv (lose_all ps h)
unfolding lose_all lose queue_packet_for_retransmission
lose_all-Inv a [] h v c = v
lose_all-Inv a (p ∷ ps) h v (asc, (here, among)) =
    lose_all-Inv p.packet_number ps (lose p h) (lose-Inv p h v here)
      (Chosen-remove a p ps h.packet_history (asc, (here, among)))

acknowledge-Inv :
    (p : Packet) (h : SentPacketHandler) → Inv h → Among p h.packet_history → Inv (acknowledge p h)
unfolding acknowledge on_packet_acked
acknowledge-Inv p h v here = record {
  in_flight = remove-InFlight _ _ p h.packet_history v.in_flight here;
  few_skipped = v.few_skipped;
}

pub acknowledge_all-Inv :
    (a : ℕ) (ps : List Packet) (h : SentPacketHandler)
    → Inv h
    → Chosen a ps h.packet_history
    → Inv (acknowledge_all ps h)
unfolding acknowledge_all acknowledge on_packet_acked
acknowledge_all-Inv a [] h v c = v
acknowledge_all-Inv a (p ∷ ps) h v (asc, (here, among)) =
    acknowledge_all-Inv p.packet_number ps (acknowledge p h) (acknowledge-Inv p h v here)
      (Chosen-remove a p ps h.packet_history (asc, (here, among)))
