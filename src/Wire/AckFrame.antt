-- ===== src/Wire/AckFrame.antt =====
-- src/sa-ecf/internal/wire/ack_frame.go and ack_range.go: what an ACK frame says, apart from its
-- encoding. A time or a duration is a number of nanoseconds, `none` the zero time.
use ivsh.Common.{
  ℕ, List, [], ◌∷◌, Bool, true, false, not, ◌&&◌, ◌||◌, Option, ltb, leb, if◌then◌else◌, ◌==◌,
  add64,
}

pub record AckRange : Type 0 where
  pub first : ℕ
  pub last : ℕ

pub record AckFrame : Type 0 where
  pub path_id : ℕ
  pub largest_acked : ℕ
  pub lowest_acked : ℕ
  pub ack_ranges : List AckRange
  pub packet_received_time : Option ℕ
  pub delay_time : ℕ

-- src/sa-ecf/internal/wire/close_path_frame.go, without the encoding.
pub record ClosePathFrame : Type 0 where
  pub path_id : ℕ
  pub largest_acked : ℕ
  pub lowest_acked : ℕ
  pub ack_ranges : List AckRange

abbrev pub is_empty : List AckRange → Bool
is_empty [] = true
is_empty (r ∷ rs) = false

unfoldable pub has_missing_ranges : AckFrame → Bool
has_missing_ranges f = not (is_empty f.ack_ranges)

-- The loop of AcksPacket over the ranges.
abbrev pub in_ranges : ℕ → List AckRange → Bool
in_ranges p [] = false
in_ranges p (r ∷ rs) = (leb r.first p && leb p r.last) || in_ranges p rs

unfoldable pub acks_packet : AckFrame → ℕ → Bool
unfolding has_missing_ranges
acks_packet f p =
    if ltb p f.lowest_acked || ltb f.largest_acked p
    then false
    else if has_missing_ranges f
    then in_ranges p f.ack_ranges
    else leb f.lowest_acked p && leb p f.largest_acked

unfoldable pub close_path_acks_packet : ClosePathFrame → ℕ → Bool
close_path_acks_packet f p =
    if ltb p f.lowest_acked || ltb f.largest_acked p
    then false
    else if not (is_empty f.ack_ranges)
    then in_ranges p f.ack_ranges
    else leb f.lowest_acked p && leb p f.largest_acked

abbrev pub all_nonempty : List AckRange → Bool
all_nonempty [] = true
all_nonempty (r ∷ rs) = if ltb r.last r.first then false else all_nonempty rs

-- Every range lies behind the one before it, with a gap in between.
abbrev pub all_consistent : List AckRange → Bool
all_consistent (r ∷ s ∷ rs) =
    if leb r.first s.first
    then false
    else if leb r.first (add64 s.last 1)
    then false
    else all_consistent (s ∷ rs)
all_consistent _ = true

abbrev pub are_valid_ranges : ℕ → List AckRange → Bool
are_valid_ranges largest [] = true
are_valid_ranges largest (r ∷ []) = false
are_valid_ranges largest (r ∷ s ∷ rs) =
    if not (r.last == largest)
    then false
    else if not (all_nonempty (r ∷ s ∷ rs))
    then false
    else all_consistent (r ∷ s ∷ rs)

unfoldable pub validate_ack_ranges : AckFrame → Bool
validate_ack_ranges f = are_valid_ranges f.largest_acked f.ack_ranges

unfoldable pub close_path_validate_ack_ranges : ClosePathFrame → Bool
close_path_validate_ack_ranges f = are_valid_ranges f.largest_acked f.ack_ranges
