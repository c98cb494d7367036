-- ===== src/AckHandler/Received/Invariant.antt =====
-- src/sa-ecf/ackhandler/received_packet_handler.go: the state between calls.
use ivsh.Common.{
  ℕ, ◌+◌, ◌^◌, ◌≤◌, ◌<◌, ◌≡◌, inl, inr, arith, List, [], ◌∷◌, Bool, true, not, ◌||◌, none, ltb,
  lt→ltb, if◌then◌else◌, add64, ◌⊎◌,
}
use ivsh.Wire.AckFrame.{AckRange, in_ranges}
use ivsh.AckHandler.History.{insert_packet, delete_loop, received_packet, delete_up_to}
use ivsh.AckHandler.History.Laws.{
  Below, Below-mono, insert_packet-Below, delete_loop-Below, in_ranges-delete_loop, in_ranges-Below,
}
use ivsh.AckHandler.Received.{
  ReceivedPacketHandler, received, set_lower_limit, is_zero, observe, new_received_packet_handler,
}
use ivsh.AckHandler.Received.Ranges.{
  Ends, Above, NonEmpty, insert_packet-Ends, insert_packet-Above, insert_packet-NonEmpty,
  delete_loop-Ends, delete_loop-Above, NonEmpty-of_member,
}

-- The intervals are sorted, end at the largest packet observed and lie above the lower limit; and
-- an ACK is due only if there is something to acknowledge.
pub record Inv (h : ReceivedPacketHandler) : Type 0 where
  pub bounded : h.largest_observed < 2 ^ 62
  pub sorted : Below (h.largest_observed + 2) h.packet_history.ranges
  pub ends : Ends h.largest_observed h.lower_limit h.packet_history.ranges
  pub above : Above h.lower_limit h.packet_history.ranges
  pub due : (h.ack_queued || not (is_zero h.ack_alarm)) ≡ true → NonEmpty h.packet_history.ranges

pub new-Inv : (version : ℕ) → Inv (new_received_packet_handler version)
unfolding new_received_packet_handler
new-Inv version = grind arith

abbrev pub larger : ℕ → ℕ → ℕ
larger largest p = if ltb largest p then p else largest

-- A state whose history took in `p`.
inserted-Inv :
    (p : ℕ) (h k : ReceivedPacketHandler)
    → 0 < p
    → p < 2 ^ 62
    → h.lower_limit < p
    → Inv h
    → k.packet_history.ranges ≡ insert_packet p h.packet_history.ranges
    → k.largest_observed ≡ larger h.largest_observed p
    → k.lower_limit ≡ h.lower_limit
    → Inv k
inserted-Inv p h k pos lt low v ranges largest lower =
    let l = h.packet_history.ranges in
    let top = larger h.largest_observed p in
    let wide : Below (top + 2) l =
      Below-mono (h.largest_observed + 2) (top + 2) l (ground arith) v.sorted in
    let room : p + 1 < top + 2 = ground arith in
    let word : top + 2 < 2 ^ 64 = ground (arith, v.bounded) in
    record {
      bounded = rw largest (ground (arith, v.bounded));
      sorted = rw (ranges, largest) (insert_packet-Below p (top + 2) l room word pos wide);
      ends =
          rw (ranges, largest, lower)
            (insert_packet-Ends p (top + 2) pos room word h.largest_observed h.lower_limit l low
              wide v.ends);
      above =
          rw (ranges, lower)
            (insert_packet-Above p (top + 2) h.lower_limit l pos room word low wide v.above);
      due = λ _. rw ranges (insert_packet-NonEmpty p (top + 2) pos room word l wide);
    }

Ends-larger :
    (p b largest lower : ℕ) (l : List AckRange)
    → p ≤ lower
    → Below b l
    → Above lower l
    → Ends largest lower l
    → Ends (larger largest p) lower l
Ends-larger p b largest lower [] h w a e = ground arith
Ends-larger p b largest lower (r ∷ rs) h (f, _, _) (x, _) e = ground arith

-- A state that only noted `p`, which is not above the lower limit.
noted-Inv :
    (p : ℕ) (h k : ReceivedPacketHandler)
    → p < 2 ^ 62
    → p ≤ h.lower_limit
    → Inv h
    → k.packet_history ≡ h.packet_history
    → k.largest_observed ≡ larger h.largest_observed p
    → k.lower_limit ≡ h.lower_limit
    → k.ack_queued ≡ h.ack_queued
    → k.ack_alarm ≡ h.ack_alarm
    → Inv k
noted-Inv p h k lt low v history largest lower queued alarm =
    let l = h.packet_history.ranges in
    let top = larger h.largest_observed p in
    record {
      bounded = rw largest (ground (arith, v.bounded));
      sorted =
          rw (history, largest)
            (Below-mono (h.largest_observed + 2) (top + 2) l (ground arith) v.sorted);
      ends =
          rw (history, largest, lower)
            (Ends-larger p (h.largest_observed + 2) h.largest_observed h.lower_limit l low v.sorted
              v.above v.ends);
      above = rw (history, lower) v.above;
      due = rw (history, queued, alarm) v.due;
    }

-- What `received` does with a packet number that is not 0.
pub noted : ℕ → ℕ → ReceivedPacketHandler → ReceivedPacketHandler
noted now p h = observe now p (record h { packets = add64 h.packets 1 })

pub noted_lem :
    (now p : ℕ) (h : ReceivedPacketHandler)
    → let k = noted now p h in
      (k.packet_history ≡ h.packet_history)
      × (k.largest_observed ≡ larger h.largest_observed p)
      × (k.lower_limit ≡ h.lower_limit)
      × (k.ack_queued ≡ h.ack_queued)
      × (k.ack_alarm ≡ h.ack_alarm)
unfolding noted
noted_lem now p h = ground arith

pub received-cases :
    (now p : ℕ) (s : Bool) (h : ReceivedPacketHandler)
    → (received now p s h).1 ≡ none
    → ((p ≤ h.lower_limit) × ((received now p s h).0 ≡ noted now p h))
      ⊎ ((0 < p)
          × (h.lower_limit < p)
          × ((received now p s h).0.packet_history.ranges ≡ insert_packet p h.packet_history.ranges)
          × ((received now p s h).0.largest_observed ≡ larger h.largest_observed p)
          × ((received now p s h).0.lower_limit ≡ h.lower_limit))
unfolding received noted received_packet
received-cases now p s h e = ground arith

-- Receiving a packet whose number is below 2 ^ 62 keeps the invariant, if it gives no error.
pub received-Inv :
    (now p : ℕ) (s : Bool) (h : ReceivedPacketHandler)
    → p < 2 ^ 62
    → Inv h
    → (received now p s h).1 ≡ none
    → Inv (received now p s h).0
received-Inv now p s h lt v e = elim (received-cases now p s h e) [
  | inl (low, shape) ↦
      let (history, largest, lower, queued, alarm) = noted_lem now p h in
      rw shape (noted-Inv p h (noted now p h) lt low v history largest lower queued alarm)
  | inr (pos, high, ranges, largest, lower) ↦
      inserted-Inv p h (received now p s h).0 pos lt high v ranges largest lower
]

-- Setting the lower limit to `p` keeps the invariant, if the history holds a packet above `p`.
pub set_lower_limit-Inv :
    (p n : ℕ) (h : ReceivedPacketHandler)
    → p < n
    → in_ranges n h.packet_history.ranges ≡ true
    → Inv h
    → Inv (set_lower_limit p h)
unfolding set_lower_limit delete_up_to
set_lower_limit-Inv p n h lt mem v =
    let small : p < 2 ^ 63 = omega (
      arith,
      v.bounded,
      in_ranges-Below n (h.largest_observed + 2) h.packet_history.ranges v.sorted mem,
    ) in
    record {
      bounded = v.bounded;
      sorted = delete_loop-Below p (h.largest_observed + 2) h.packet_history.ranges small v.sorted;
      ends =
          delete_loop-Ends p (h.largest_observed + 2) h.largest_observed h.lower_limit
            h.packet_history.ranges small v.sorted
            (NonEmpty-of_member n h.packet_history.ranges mem) v.ends;
      above = delete_loop-Above p (h.largest_observed + 2) h.packet_history.ranges small v.sorted;
      due = λ _. NonEmpty-of_member n (delete_loop p h.packet_history.ranges).0 (
          rw
            (
              in_ranges-delete_loop p (h.largest_observed + 2) n h.packet_history.ranges small
                  v.sorted,
              lt→ltb p n lt,
            )
            mem);
    }
