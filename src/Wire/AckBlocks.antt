-- ===== src/Wire/AckBlocks.antt =====
-- src/sa-ecf/internal/wire/ack_frame.go and close_path_frame.go: the ranges of packet numbers as
-- blocks of a gap and a length, which both frames write and parse in the same way. A gap of more than
-- 255 numbers takes several blocks, all but the last of which have the length 0.
pub mod Numbers
pub mod Apply
pub mod Written
pub mod RoundTrip
pub mod Sound
pub mod LongGap
use ivsh.Common.{
  ℕ, zero, suc, ◌+◌, ◌-◌, ◌*◌, ◌/◌, ◌%◌, ◌^◌, List, [], ◌∷◌, ◌++◌, Bool, true, false, not, ◌&&◌,
  ◌||◌, ltb, leb, ◌==◌, if◌then◌else◌, add64, sub64, length,
}
use ivsh.Common.Result.{ok, err, ◌>>=◌}
use mathlib.Core.List.{reverse}
use ivsh.Protocol.PacketNumber.{PacketNumberLen, len1, len2, len4, len6, bytes_of}
use ivsh.Utils.Reader.{Parse, read_byte, invalid_ack_ranges, invalid_first_ack_range}
use ivsh.Utils.ByteOrder.{
  ByteOrder, Write, inconsistent_largest_acked, inconsistent_lowest_acked, inconsistent_ack_ranges,
}
use ivsh.Wire.AckFrame.{AckRange, is_empty}

-- The gap and the length of a block.
abbrev pub Block : Type 0
Block = ℕ × ℕ

-- `getMissingSequenceNumberDeltaLen`
abbrev max_range_length : ℕ → List AckRange → ℕ
max_range_length longest [] = longest
max_range_length longest (r ∷ rs) =
    let range_length = add64 (sub64 r.last r.first) 1 in
    max_range_length (if ltb longest range_length then range_length else longest) rs

abbrev pub length_of_number : ℕ → PacketNumberLen
length_of_number n =
    if leb n 0xff
    then len1
    else if leb n 0xffff
    then len2
    else if leb n 0xffff_ffff
    then len4
    else len6

unfoldable pub missing_delta_len : ℕ → ℕ → List AckRange → PacketNumberLen
missing_delta_len largest lowest ranges =
    length_of_number
      (if not (is_empty ranges) then max_range_length 0 ranges else add64 (sub64 largest lowest) 1)

-- The number of blocks of a gap.
abbrev pub blocks_of_gap : ℕ → ℕ
blocks_of_gap gap = if gap % 0xff == 0 then sub64 (gap / 0xff + 1) 1 else gap / 0xff + 1

abbrev pub gap_between : AckRange → AckRange → ℕ
gap_between prev r = sub64 (sub64 prev.first r.last) 1

-- The loop of `numWritableNackRanges`.
abbrev pub count_writable : ℕ → AckRange → List AckRange → ℕ
count_writable n prev [] = n
count_writable n prev (r ∷ rs) =
    let range_length = blocks_of_gap (gap_between prev r) in
    if ltb (n + range_length) 0xff then count_writable (n + range_length) r rs else n

unfoldable pub num_writable_nack_ranges : List AckRange → ℕ
num_writable_nack_ranges [] = 0
num_writable_nack_ranges (r ∷ rs) = count_writable 0 r rs + 1

-- The loop over the blocks of one range, with the number of those that are left.
abbrev pub long_blocks : ℕ → ℕ → ℕ → List Block
long_blocks zero gap len = []
long_blocks (suc zero) gap len = (1 + (gap - 1) % 255, len) ∷ []
long_blocks (suc (suc n)) gap len = (0xff, 0) ∷ long_blocks (suc n) gap len

abbrev pub blocks_of_range : ℕ → ℕ → List Block
blocks_of_range gap len =
    let num = blocks_of_gap gap in
    if num == 1 then (gap % 2 ^ 8, len) ∷ [] else long_blocks num gap len

-- The loop over the ranges: the blocks, and the number of those written.
unfoldable pub blocks_of_ranges : ℕ → ℕ → AckRange → List AckRange → List Block × ℕ
blocks_of_ranges num_ranges written prev [] = ([], written)
blocks_of_ranges num_ranges written prev (r ∷ rs) =
    let bs = blocks_of_range (gap_between prev r) (add64 (sub64 r.last r.first) 1) in
    let written' = written + length bs in
    let rest = blocks_of_ranges num_ranges written' r rs in
    if leb num_ranges written' then (bs, written') else (bs ++ rest.0, rest.1)

-- A number in the length that was chosen. Only ACK frames mask a 48-bit number.
unfoldable pub write_number : ByteOrder → Bool → PacketNumberLen → ℕ → Write
write_number o masked len1 n = ok (n % 2 ^ 8 ∷ [])
write_number o masked len2 n = ok (o.write_uint16 (n % 2 ^ 16))
write_number o masked len4 n = ok (o.write_uint32 (n % 2 ^ 32))
write_number o masked len6 n = o.write_uint48 (if masked then n % 2 ^ 48 else n)

unfoldable pub write_blocks : ByteOrder → Bool → PacketNumberLen → List Block → Write
unfolding write_number
write_blocks o masked len [] = ok []
write_blocks o masked len ((gap, n) ∷ bs) = do
  number ← write_number o masked len n
  rest ← write_blocks o masked len bs
  ok (gap ∷ (number ++ rest))

abbrev pub lowest_of : ℕ → List AckRange → ℕ
lowest_of none_left [] = none_left
lowest_of none_left (r ∷ rs) = lowest_of r.first rs

-- The length of the first range, and the blocks of the others.
unfoldable pub write_ranges :
    ByteOrder → Bool → PacketNumberLen → (largest lowest : ℕ) → List AckRange → Write
unfolding write_number write_blocks blocks_of_ranges num_writable_nack_ranges
write_ranges o masked len largest lowest [] =
    write_number o masked len (add64 (sub64 largest lowest) 1)
write_ranges o masked len largest lowest (r ∷ rs) =
    let num_ranges = num_writable_nack_ranges (r ∷ rs) in
    let blocks = blocks_of_ranges num_ranges 1 r rs in
    if not (largest == r.last)
    then err inconsistent_largest_acked
    else if not (lowest == lowest_of r.first rs)
    then err inconsistent_lowest_acked
    else do
      first ← write_number o masked len (add64 (sub64 largest r.first) 1)
      rest ← write_blocks o masked len blocks.0
      if not (num_ranges == blocks.1) then err inconsistent_ack_ranges else ok (first ++ rest)

-- What the parser knows behind a block: the ranges so far, the last one first, whether it is in a
-- gap of several blocks, and whether the last range is complete.
pub record Ranges : Type 0 where
  pub ranges : List AckRange
  pub in_long_block : Bool
  pub last_range_complete : Bool

abbrev pub extend : ℕ → ℕ → Bool → List AckRange → List AckRange
extend gap len long [] = []
extend gap len true (r ∷ rs) =
    record { first = sub64 r.first (add64 gap len); last = sub64 r.last gap } ∷ rs
extend gap len false (r ∷ rs) =
    let last = sub64 (sub64 r.first gap) 1 in
    record { first = add64 (sub64 last len) 1; last = last } ∷ r ∷ rs

abbrev pub add_block : Block → Ranges → Ranges
add_block (gap, len) s = record {
  ranges = extend gap len s.in_long_block s.ranges;
  last_range_complete = if ltb 0 len then true else s.in_long_block && s.last_range_complete;
  in_long_block = len == 0;
}

-- The loop over the blocks, with the number of those that are left.
unfoldable pub parse_blocks : ByteOrder → ℕ → ℕ → Ranges → List ℕ → Parse Ranges
parse_blocks o len zero s r = ok (s, r)
parse_blocks o len (suc n) s r = do
  (gap, r) ← read_byte r
  (block_length, r) ← o.read_uint_n len r
  parse_blocks o len n (add_block (gap, block_length) s) r

abbrev pub drop_incomplete : Ranges → List AckRange
drop_incomplete s = elim s.ranges [
  | [] ↦ []
  | r ∷ rs ↦ if s.last_range_complete then r ∷ rs else rs
]

abbrev pub first_of : List AckRange → ℕ
first_of [] = 0
first_of (r ∷ rs) = r.first

abbrev pub first_range : ℕ → ℕ → Ranges
first_range largest block_length = record {
  ranges = record { first = add64 (sub64 largest block_length) 1; last = largest } ∷ [];
  in_long_block = false;
  last_range_complete = false;
}

-- The lowest number and the ranges, from the length of the first block on.
unfoldable pub ranges_from :
    ByteOrder
    → ℕ
    → Bool
    → (largest num_blocks block_length : ℕ) → List ℕ
    → Parse (ℕ × List AckRange)
unfolding parse_blocks
ranges_from o len false largest num_blocks block_length r =
    ok (((if largest == 0 then 0 else sub64 (add64 largest 1) block_length), []), r)
ranges_from o len true largest num_blocks block_length r = do
  (s, r) ← parse_blocks o len num_blocks (first_range largest block_length) r
  ok ((first_of (drop_incomplete s), reverse (drop_incomplete s)), r)

unfoldable pub parse_ranges :
    ByteOrder → ℕ → Bool → (largest num_blocks : ℕ) → List ℕ → Parse (ℕ × List AckRange)
unfolding ranges_from
parse_ranges o len missing largest num_blocks r = do
  (block_length, r) ← o.read_uint_n len r
  if ltb 0 largest && ltb block_length 1
      then err invalid_first_ack_range
      else if ltb largest block_length
      then err invalid_ack_ranges
      else ranges_from o len missing largest num_blocks block_length r
