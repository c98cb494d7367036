-- ===== src/AckHandler/Received/Acks.antt =====
-- src/sa-ecf/ackhandler/received_packet_handler.go: an ACK frame says exactly what the history
-- holds.
use ivsh.Common.{
  ℕ, ◌+◌, ◌≤◌, ◌<◌, ◌≡◌, ◌⊎◌, inl, inr, refl, arith, List, [], ◌∷◌, true, false, not, ◌&&◌, ◌||◌,
  Option, none, some, Bool-cases,
}
use ivsh.Common.Result.{ok}
use ivsh.Wire.AckFrame.{AckRange, AckFrame, acks_packet, in_ranges}
use ivsh.AckHandler.History.{get_ack_ranges}
use ivsh.AckHandler.History.Laws.{Below, in_ranges-Below}
use ivsh.AckHandler.Received.{
  ReceivedPacketHandler, get_ack_frame, build_ack, last_range, is_zero, is_after,
}
use ivsh.AckHandler.Received.Ranges.{Ends, NonEmpty}
use ivsh.AckHandler.Received.Invariant.{Inv}

-- The last interval is the lowest.
last_range-lowest :
    (b : ℕ) (l : List AckRange)
    → Below b l
    → NonEmpty l
    → (r : AckRange) × (last_range l ≡ ok r)
      × (r.first + 1 < b)
      × ((n : ℕ) → in_ranges n l ≡ true → r.first ≤ n)
last_range-lowest b [] w ne = absurd ne
last_range-lowest b (r ∷ []) (f, t, w) ne = (r, refl, omega arith, λ n h. ground arith)
last_range-lowest b (r ∷ s ∷ rs) (f, t, w) ne =
    let (low, e, lt, least) = last_range-lowest r.first (s ∷ rs) w tt in
    (low, e, omega arith, λ n h. ground (arith, least n))

build_ack-acks :
    (largest lower : ℕ) (time : Option ℕ) (l : List AckRange)
    → Below (largest + 2) l
    → Ends largest lower l
    → NonEmpty l
    → (ack : AckFrame) × (build_ack l largest time ≡ ok ack)
      × (ack.largest_acked ≡ largest)
      × ((n : ℕ) → acks_packet ack n ≡ in_ranges n l)
unfolding acks_packet
build_ack-acks largest lower time [] w e ne = absurd ne
build_ack-acks largest lower time (r ∷ []) w e ne = (
  record {
    largest_acked = largest;
    lowest_acked = r.first;
    ack_ranges = [];
    packet_received_time = time;
    path_id = 0;
    delay_time = 0;
  },
  refl,
  refl,
  λ n. ground arith,
)
build_ack-acks largest lower time (r ∷ s ∷ rs) w e ne =
    let (low, last, lt, least) = last_range-lowest (largest + 2) (r ∷ s ∷ rs) w tt in
    (
      record {
        largest_acked = largest;
        lowest_acked = low.first;
        ack_ranges = r ∷ s ∷ rs;
        packet_received_time = time;
        path_id = 0;
        delay_time = 0;
      },
      ground (arith, last),
      refl,
      λ n. ground (arith, least n, in_ranges-Below n (largest + 2) (r ∷ s ∷ rs) w),
    )

-- In a state that satisfies the invariant an ACK frame is not due, or it can be built without an
-- index error; then it acknowledges exactly the packet numbers in the history, its largest is
-- the largest one observed, and afterwards none is due.
pub get_ack_frame-acks :
    (now : ℕ) (h : ReceivedPacketHandler)
    → Inv h
    → (get_ack_frame now h ≡ ok (none, h))
      ⊎ ((ack : AckFrame) × (h' : ReceivedPacketHandler) × (get_ack_frame now h ≡ ok (some ack, h'))
          × (ack.largest_acked ≡ h.largest_observed)
          × ((n : ℕ) → acks_packet ack n ≡ in_ranges n h.packet_history.ranges)
          × (get_ack_frame now h' ≡ ok (none, h')))
unfolding get_ack_frame get_ack_ranges
get_ack_frame-acks now h v =
    elim (Bool-cases (not h.ack_queued && (is_zero h.ack_alarm || is_after h.ack_alarm now))) [
      | inl idle ↦ inl (rw (idle, get_ack_frame))
      | inr due ↦
          let (ack, built, largest, acks) =
            build_ack-acks h.largest_observed h.lower_limit h.largest_observed_received_time
              h.packet_history.ranges v.sorted v.ends (v.due (ground arith)) in
          inr (
            ack,
            record h {
              last_ack = some ack;
              ack_alarm = none;
              ack_queued = false;
              packets_received_since_last_ack = 0;
              retransmittable_packets_received_since_last_ack = 0;
            },
            rw (due, get_ack_frame, built),
            largest,
            acks,
            refl,
          )
    ]
