-- ===== src/AckHandler/Received/Reachable.antt =====
-- src/sa-ecf/ackhandler/received_packet_handler.go: what a handler becomes by its
-- calls, with packet numbers below 2 ^ 62.
use ivsh.Common.{
  ℕ, ◌+◌, ◌^◌, ◌<◌, ◌≡◌, inl, inr, refl, arith, List, [], ◌∷◌, Bool, true, false, not, ◌&&◌, ◌||◌,
  Option, none, some, ltb, Option-cases,
}
use ivsh.Common.Result.{ok}
use ivsh.Wire.AckFrame.{AckFrame, AckRange, in_ranges}
use ivsh.AckHandler.History.Laws.{Below, Below-mono, insert_packet-Below, delete_loop-Below}
use ivsh.AckHandler.History.{insert_packet, delete_up_to}
use ivsh.AckHandler.Received.{
  is_zero, Error, ReceivedPacketHandler, get_ack_frame, new_received_packet_handler, received,
  set_lower_limit,
}
use ivsh.AckHandler.Received.Ranges.{Above, insert_packet-Above, delete_loop-Above}
use ivsh.AckHandler.Received.Invariant.{
  Inv, new-Inv, received-Inv, set_lower_limit-Inv, larger, noted, noted_lem, received-cases,
}

-- The history holds a number above `p`.
abbrev pub holds_above : ℕ → List AckRange → Bool
holds_above p [] = false
holds_above p (r ∷ rs) = ltb p r.last

abbrev pub is_error : Option Error → Bool
is_error none = false
is_error (some e) = true

-- A new handler, and what it becomes: packets arrive, whatever the result; lower limits are set; and ACK
-- frames are taken. The numbers are below 2 ^ 62. The Boolean tells whether no packet gave an error
-- so far, and every lower limit was set while the history held a larger number.
pub data Reachable : Bool → ReceivedPacketHandler → Type 0 where
  starts : (version : ℕ) → Reachable true (new_received_packet_handler version)
  receives :
      (b : Bool) (now p : ℕ) (s : Bool) (h : ReceivedPacketHandler)
      → p < 2 ^ 62
      → Reachable b h
      → Reachable (b && not (is_error (received now p s h).1)) (received now p s h).0
  limits :
      (b : Bool) (p : ℕ) (h : ReceivedPacketHandler)
      → p < 2 ^ 62
      → Reachable b h
      → Reachable (b && holds_above p h.packet_history.ranges) (set_lower_limit p h)
  answers :
      (b : Bool) (now : ℕ) (ack : Option AckFrame) (h h' : ReceivedPacketHandler)
      → get_ack_frame now h ≡ ok (ack, h')
      → Reachable b h
      → Reachable b h'

get_ack_frame-keeps :
    (now : ℕ) (ack : Option AckFrame) (h h' : ReceivedPacketHandler)
    → get_ack_frame now h ≡ ok (ack, h')
    → (h'.largest_observed ≡ h.largest_observed)
      × (h'.lower_limit ≡ h.lower_limit)
      × (h'.packet_history ≡ h.packet_history)
      × ((h'.ack_queued || not (is_zero h'.ack_alarm)) ≡ true
          → (h.ack_queued || not (is_zero h.ack_alarm)) ≡ true)
unfolding get_ack_frame
get_ack_frame-keeps now ack h h' e = (ground arith, ground arith, ground arith, λ due. ground arith)

get_ack_frame-Inv :
    (now : ℕ) (ack : Option AckFrame) (h h' : ReceivedPacketHandler)
    → get_ack_frame now h ≡ ok (ack, h')
    → Inv h
    → Inv h'
get_ack_frame-Inv now ack h h' e v =
    let (largest, lower, history, due) = get_ack_frame-keeps now ack h h' e in
    record {
      bounded = rw largest v.bounded;
      sorted = rw (largest, history) v.sorted;
      ends = rw (largest, lower, history) v.ends;
      above = rw (lower, history) v.above;
      due = λ d. rw history (v.due (due d));
    }

-- The intervals are sorted, up to the largest packet observed, and lie above the lower limit.
abbrev IsOrdered : ReceivedPacketHandler → Type 0
IsOrdered h =
    (h.largest_observed < 2 ^ 62)
    × Below (h.largest_observed + 2) h.packet_history.ranges
    × Above h.lower_limit h.packet_history.ranges

-- The full invariant as long as nothing went wrong, and ordered from then on.
abbrev pub IsRegular : Bool → ReceivedPacketHandler → Type 0
IsRegular true h = Inv h
IsRegular false h = IsOrdered h

received-fails :
    (now p : ℕ) (s : Bool) (h : ReceivedPacketHandler) (e : Error)
    → (received now p s h).1 ≡ some e
    → let k = (received now p s h).0 in
      (k.packet_history ≡ h.packet_history)
      × (k.largest_observed ≡ larger h.largest_observed p)
      × (k.lower_limit ≡ h.lower_limit)
unfolding received
received-fails now p s h e failed = ground arith

-- A state with the same history.
noted-IsOrdered :
    (p : ℕ) (h k : ReceivedPacketHandler)
    → p < 2 ^ 62
    → k.packet_history ≡ h.packet_history
    → k.largest_observed ≡ larger h.largest_observed p
    → k.lower_limit ≡ h.lower_limit
    → IsOrdered h
    → IsOrdered k
noted-IsOrdered p h k lt history largest lower (bounded, sorted, above) =
    let top = larger h.largest_observed p in
    (
      rw largest (ground arith),
      rw (history, largest)
          (Below-mono (h.largest_observed + 2) (top + 2) h.packet_history.ranges (ground arith)
            sorted),
      rw (history, lower) above,
    )

-- A state whose history took in `p`.
inserted-IsOrdered :
    (p : ℕ) (h k : ReceivedPacketHandler)
    → 0 < p
    → p < 2 ^ 62
    → h.lower_limit < p
    → k.packet_history.ranges ≡ insert_packet p h.packet_history.ranges
    → k.largest_observed ≡ larger h.largest_observed p
    → k.lower_limit ≡ h.lower_limit
    → IsOrdered h
    → IsOrdered k
inserted-IsOrdered p h k pos lt low ranges largest lower (bounded, sorted, above) =
    let l = h.packet_history.ranges in
    let top = larger h.largest_observed p in
    let wide : Below (top + 2) l =
      Below-mono (h.largest_observed + 2) (top + 2) l (ground arith) sorted in
    let room : p + 1 < top + 2 = ground arith in
    let word : top + 2 < 2 ^ 64 = ground arith in
    (
      rw largest (ground arith),
      rw (ranges, largest) (insert_packet-Below p (top + 2) l room word pos wide),
      rw (ranges, lower)
          (insert_packet-Above p (top + 2) h.lower_limit l pos room word low wide above),
    )

received-IsOrdered :
    (now p : ℕ) (s : Bool) (h : ReceivedPacketHandler)
    → p < 2 ^ 62
    → IsOrdered h
    → IsOrdered (received now p s h).0
received-IsOrdered now p s h lt v = elim (Option-cases (received now p s h).1) [
  | inr (e, failed) ↦
      let (history, largest, lower) = received-fails now p s h e failed in
      noted-IsOrdered p h (received now p s h).0 lt history largest lower v
  | inl fine ↦ elim (received-cases now p s h fine) [
    | inl (low, shape) ↦
        let (history, largest, lower, _, _) = noted_lem now p h in
        rw shape (noted-IsOrdered p h (noted now p h) lt history largest lower v)
    | inr (pos, high, ranges, largest, lower) ↦
        inserted-IsOrdered p h (received now p s h).0 pos lt high ranges largest lower v
  ]
]

set_lower_limit-IsOrdered :
    (p : ℕ) (h : ReceivedPacketHandler) → p < 2 ^ 62 → IsOrdered h → IsOrdered (set_lower_limit p h)
unfolding set_lower_limit delete_up_to
set_lower_limit-IsOrdered p h lt (bounded, sorted, above) =
    let small : p < 2 ^ 63 = omega arith in
    let l = h.packet_history.ranges in
    (
      bounded,
      delete_loop-Below p (h.largest_observed + 2) l small sorted,
      delete_loop-Above p (h.largest_observed + 2) l small sorted,
    )

-- The last number of the first interval.
holds_above-member :
    (p b : ℕ) (l : List AckRange)
    → Below b l
    → holds_above p l ≡ true
    → (n : ℕ) × (p < n) × (in_ranges n l ≡ true)
holds_above-member p b [] w h = cc
holds_above-member p b (r ∷ rs) (first, _, _) h = (r.last, ground arith, ground arith)

both : (b c : Bool) → (b && c) ≡ true → (b ≡ true) × (c ≡ true)
both b c h = ground arith

no_error : (e : Option Error) → not (is_error e) ≡ true → e ≡ none
no_error e h = ground arith

Reachable-IsOrdered :
    {b : Bool} {h : ReceivedPacketHandler} → Reachable b h → IsOrdered h × (b ≡ true → Inv h)
Reachable-IsOrdered (starts version) =
    let v = new-Inv version in ((v.bounded, v.sorted, v.above), λ _. v)
Reachable-IsOrdered (receives b now p s h lt r) =
    let (ordered, regular) = Reachable-IsOrdered r in
    (
      received-IsOrdered now p s h lt ordered,
      λ still.
          let (was, fine) = both b (not (is_error (received now p s h).1)) still in
          received-Inv now p s h lt (regular was) (no_error (received now p s h).1 fine),
    )
Reachable-IsOrdered (limits b p h lt r) =
    let (ordered, regular) = Reachable-IsOrdered r in
    (
      set_lower_limit-IsOrdered p h lt ordered,
      λ still.
          let (was, above) = both b (holds_above p h.packet_history.ranges) still in
          let (n, larger_one, member) =
            holds_above-member p (h.largest_observed + 2) h.packet_history.ranges ordered.1 above in
          set_lower_limit-Inv p n h larger_one member (regular was),
    )
Reachable-IsOrdered (answers b now ack h h' e r) =
    let (ordered, regular) = Reachable-IsOrdered r in
    let (largest, lower, history, due) = get_ack_frame-keeps now ack h h' e in
    (
      rw (largest, lower, history) ordered,
      λ still. get_ack_frame-Inv now ack h h' e (regular still),
    )

IsRegular-of_IsOrdered :
    (b : Bool) (h : ReceivedPacketHandler) → IsOrdered h → (b ≡ true → Inv h) → IsRegular b h
IsRegular-of_IsOrdered true h ordered regular = regular refl
IsRegular-of_IsOrdered false h ordered regular = ordered

-- What a new handler becomes by packets, lower limits and ACK frames with numbers below 2 ^ 62,
-- whatever the results: the intervals of its history are sorted, do not reach above the largest
-- packet observed and lie above the lower limit. If moreover no packet gave an error, and each lower
-- limit was set while the history held a larger number, then the history ends at the largest
-- packet observed, unless it is empty and that is not above the lower limit, and an ACK is due
-- only if the history is not empty.
pub Reachable-IsRegular : (b : Bool) (h : ReceivedPacketHandler) → Reachable b h → IsRegular b h
Reachable-IsRegular b h r =
    let (ordered, regular) = Reachable-IsOrdered r in IsRegular-of_IsOrdered b h ordered regular
