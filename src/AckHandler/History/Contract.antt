-- ===== src/AckHandler/History/Contract.antt =====
-- src/sa-ecf/ackhandler/received_packet_history.go: the two operations as operations on the set of
-- packet numbers.
use ivsh.Common.{
  ℕ, ◌+◌, ◌^◌, ◌≤◌, ◌<◌, ◌≡◌, refl, ◌⊎◌, inl, inr, Bool-cases, leb, arith, ◌&&◌, ◌||◌, length, ltb,
  ◌==◌,
}
use ivsh.Common.Result.{ok, err}
use ivsh.Wire.AckFrame.{in_ranges}
use ivsh.AckHandler.History.{History, received_packet, delete_up_to, insert_packet}
use ivsh.AckHandler.History.{
  max_tracked_received_ack_ranges, too_many_outstanding_received_ack_ranges,
}
use ivsh.AckHandler.History.Laws.{Below, insert_packet-Below, in_ranges-insert_packet}
use ivsh.AckHandler.History.Laws.{delete_loop-Below, in_ranges-delete_loop}

-- For intervals that are sorted and apart below a bound of at most 64 bits, and a packet number
-- that is not 0 and below it: while fewer than the maximal number of ranges is tracked,
-- ReceivedPacket adds the packet number to the members and keeps the intervals sorted and apart;
-- from then on it fails.
pub received_packet-adds :
    (p b : ℕ) (h : History)
    → 0 < p
    → p + 1 < b
    → b < 2 ^ 64
    → Below b h.ranges
    → ((max_tracked_received_ack_ranges ≤ length h.ranges)
        × (received_packet p h ≡ err too_many_outstanding_received_ack_ranges))
      ⊎ ((length h.ranges < max_tracked_received_ack_ranges)
          × ((h' : History) × (received_packet p h ≡ ok h')
              × Below b h'.ranges
              × ((n : ℕ) → in_ranges n h'.ranges ≡ ((n == p) || in_ranges n h.ranges))))
unfolding received_packet
received_packet-adds p b h pos lt hb w =
    elim (Bool-cases (leb max_tracked_received_ack_ranges (length h.ranges))) [
      | inl full ↦ inl (ground arith, rw (full, received_packet) refl)
      | inr room ↦ inr (
        ground arith,
        (
          record h { ranges = insert_packet p h.ranges },
          rw (room, received_packet) refl,
          insert_packet-Below p b h.ranges lt hb pos w,
          λ n. in_ranges-insert_packet p b n h.ranges lt hb pos w,
        ),
      )
    ]

-- For a number `p` below 2 ^ 63 and intervals that are sorted and apart, DeleteUpTo removes the
-- members up to `p`, no others, and keeps the intervals sorted and apart.
pub delete_up_to-removes :
    (p b : ℕ) (h : History)
    → p < 2 ^ 63
    → Below b h.ranges
    → Below b (delete_up_to p h).ranges
      × ((n : ℕ) → in_ranges n (delete_up_to p h).ranges ≡ (ltb p n && in_ranges n h.ranges))
unfolding delete_up_to
delete_up_to-removes p b h hp w =
    (delete_loop-Below p b h.ranges hp w, λ n. in_ranges-delete_loop p b n h.ranges hp w)
