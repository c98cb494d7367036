-- ===== src/AckHandler/Sent/Newly/Frames.antt =====
-- src/sa-ecf/ackhandler/sent_packet_handler.go: the packets that are listed for a frame, whose ranges
-- are from the highest to the lowest.
use ivsh.Common.{
  ℕ, ◌+◌, ◌<◌, ◌^◌, ◌≡◌, refl, ◌∙◌, arith, List, [], ◌∷◌, Bool, true, false, not, ◌&&◌, ◌||◌, ltb,
  leb, if◌then◌else◌, All, filter,
}
use ivsh.Common.Result.{ok}
use mathlib.Core.List.{reverse, reverse_aux}
use ivsh.Wire.AckFrame.{
  AckRange, AckFrame, ClosePathFrame, acks_packet, close_path_acks_packet, in_ranges, is_empty,
  has_missing_ranges, all_nonempty, all_consistent, are_valid_ranges, validate_ack_ranges,
  close_path_validate_ack_ranges,
}
use ivsh.AckHandler.Packet.{Packet}
use ivsh.AckHandler.History.Laws.{Below}
use ivsh.AckHandler.Sent.Newly.{
  determine_newly_acked_packets, determine_newly_acked_packets_close_path,
}
use ivsh.AckHandler.Sent.Newly.Filtered.{Ascending, Rising, within, accepts, newly_acked-filter}

-- No end of a range is the last packet number of 64 bits.
abbrev pub AreInside : List AckRange → Type 0
AreInside rs = All (λ (r : AckRange). r.last + 1 < 2 ^ 64) rs

consistent-Below :
    (r : AckRange) (rs : List AckRange)
    → AreInside rs
    → all_nonempty rs ≡ true
    → all_consistent (r ∷ rs) ≡ true
    → Below r.first rs
consistent-Below r [] i n c = tt
consistent-Below r (s ∷ rs) (lt, i) n c = ground (arith, consistent-Below s rs i)

-- The ranges from the lowest one.
reverse-Rising :
    (largest : ℕ) (r : AckRange) (rs after : List AckRange)
    → Below r.first rs
    → Rising largest (r ∷ after)
    → Rising largest (reverse_aux rs (r ∷ after))
reverse-Rising largest r [] after b v = v
reverse-Rising largest r (s ∷ rs) after (f, l, b) v =
    reverse-Rising largest s rs (r ∷ after) b (f, omega arith, v)

in_ranges-reverse_aux :
    (n : ℕ) (rs after : List AckRange)
    → in_ranges n (reverse_aux rs after) ≡ in_ranges n rs || in_ranges n after
in_ranges-reverse_aux n [] after = refl
in_ranges-reverse_aux n (r ∷ rs) after =
    let rest = in_ranges-reverse_aux n rs (r ∷ after) in ground arith

valid-Rising :
    (largest : ℕ) (rs : List AckRange)
    → AreInside rs
    → are_valid_ranges largest rs ≡ true
    → Rising largest (reverse rs)
valid-Rising largest [] i v = tt
valid-Rising largest (r ∷ []) i v = ground arith
valid-Rising largest (r ∷ s ∷ rs) (lt, i) v =
    let below : Below r.first (s ∷ rs) = ground (arith, consistent-Below r (s ∷ rs) i) in
    reverse-Rising largest r (s ∷ rs) [] below (ground arith)

reversed_within :
    (n : ℕ) (r : AckRange) (rs : List AckRange) → within (reverse (r ∷ rs)) n ≡ in_ranges n (r ∷ rs)
reversed_within n r rs =
    go (reverse (r ∷ rs)) (in_ranges-reverse_aux n (r ∷ rs) []) (reverse-nonempty r rs [])
  where
    go :
        (l : List AckRange)
        → in_ranges n l ≡ in_ranges n (r ∷ rs) || false
        → is_empty l ≡ false
        → within l n ≡ in_ranges n (r ∷ rs)
    go [] h e = ground (arith, e)
    go (s ∷ l) h e = ground (arith, h)

    reverse-nonempty :
        (s : AckRange) (xs after : List AckRange) → is_empty (reverse_aux xs (s ∷ after)) ≡ false
    reverse-nonempty s [] after = refl
    reverse-nonempty s (x ∷ xs) after = reverse-nonempty x xs (s ∷ after)

-- What AcksPacket answers.
abbrev acks : ℕ → ℕ → List AckRange → ℕ → Bool
acks lowest largest rs n =
    if ltb n lowest || ltb largest n
    then false
    else if not (is_empty rs)
    then in_ranges n rs
    else leb lowest n && leb n largest

accepts-acks :
    (lowest largest : ℕ) (rs : List AckRange) (n : ℕ)
    → accepts lowest largest (reverse rs) n ≡ acks lowest largest rs n
accepts-acks lowest largest [] n = ground arith
accepts-acks lowest largest (r ∷ rs) n = rw (reversed_within n r rs) (ground arith)

-- For a frame with valid ranges and a history in the order of its numbers, the packets that are listed as newly
-- acknowledged are all those of the history that AcksPacket holds for, in their order, and the
-- error "acked wrong packet" does not occur.
pub determine_newly_acked_packets-filter :
    (f : AckFrame) (a : ℕ) (history : List Packet)
    → validate_ack_ranges f ≡ true
    → AreInside f.ack_ranges
    → Ascending a history
    → determine_newly_acked_packets f history
      ≡ ok (filter (λ p. acks_packet f p.packet_number) history)
unfolding determine_newly_acked_packets validate_ack_ranges acks_packet has_missing_ranges
determine_newly_acked_packets-filter f a history v i asc =
    newly_acked-filter f.lowest_acked f.largest_acked a (reverse f.ack_ranges) history
      (valid-Rising f.largest_acked f.ack_ranges i v) asc
    ∙ (λ k. ok (
        filter (λ p. accepts-acks f.lowest_acked f.largest_acked f.ack_ranges p.packet_number k)
          history))

-- The same for a CLOSE_PATH frame.
pub determine_newly_acked_packets_close_path-filter :
    (f : ClosePathFrame) (a : ℕ) (history : List Packet)
    → close_path_validate_ack_ranges f ≡ true
    → AreInside f.ack_ranges
    → Ascending a history
    → determine_newly_acked_packets_close_path f history
      ≡ ok (filter (λ p. close_path_acks_packet f p.packet_number) history)
unfolding determine_newly_acked_packets_close_path close_path_validate_ack_ranges
    close_path_acks_packet
determine_newly_acked_packets_close_path-filter f a history v i asc =
    newly_acked-filter f.lowest_acked f.largest_acked a (reverse f.ack_ranges) history
      (valid-Rising f.largest_acked f.ack_ranges i v) asc
    ∙ (λ k. ok (
        filter (λ p. accepts-acks f.lowest_acked f.largest_acked f.ack_ranges p.packet_number k)
          history))
