-- ===== src/Wire/AckBlocks/LongGap.antt =====
-- src/sa-ecf/internal/wire/ack_frame.go and close_path_frame.go: a first gap that takes more blocks than
-- a frame has.
use ivsh.Common.{ℕ, ◌+◌, ◌-◌, ◌^◌, ◌≤◌, ◌<◌, ◌≡◌, arith, List, ◌∷◌, Bool, false, All-map, ◌==◌}
use ivsh.Common.Result.{err}
use ivsh.Utils.ByteOrder.{ByteOrder, IsCodec, inconsistent_ack_ranges}
use ivsh.Wire.AckFrame.{AckRange}
use ivsh.Wire.AckBlocks.{
  blocks_of_gap, blocks_of_ranges, first_range, gap_between, lowest_of, max_range_length,
  missing_delta_len, num_writable_nack_ranges, write_ranges,
}
use ivsh.Wire.AckBlocks.Apply.{Descends, blocks_of_gap_lem, length-blocks_of_range}
use ivsh.Wire.AckBlocks.Numbers.{
  range_length, write_number-RoundTrip, write_blocks-RoundTrip, fits_length, max_range_length-le,
  max_range_length-lt,
}
use ivsh.Wire.AckBlocks.Written.{lengths-blocks_of_ranges}
use ivsh.Wire.AckBlocks.RoundTrip.{range_lengths}

many_blocks :
    (r s : AckRange)
    → r.first < 2 ^ 48
    → s.last + 64771 < r.first
    → 255 ≤ blocks_of_gap (gap_between r s)
many_blocks r s bound far =
    let gap : gap_between r s ≡ r.first - s.last - 1 = omega arith in
    let (n, num, g) = blocks_of_gap_lem (r.first - s.last - 1) (omega arith) (omega arith) in
    rw (gap, num) (omega arith)

none_counted :
    (r s : AckRange) (rs : List AckRange)
    → 255 ≤ blocks_of_gap (gap_between r s)
    → num_writable_nack_ranges (r ∷ s ∷ rs) ≡ 1
unfolding num_writable_nack_ranges
none_counted r s rs many = ground arith

-- The blocks of the range are written all the same.
many_written :
    (r s : AckRange) (rs : List AckRange)
    → 255 ≤ blocks_of_gap (gap_between r s)
    → (1 == (blocks_of_ranges 1 1 r (s ∷ rs)).1) ≡ false
unfolding blocks_of_ranges
many_written r s rs many =
    let size = length-blocks_of_range (gap_between r s) (range_length s) in ground (arith, size)

-- Ranges whose numbers fit 48 bits and that end with the lowest number are not written if there are more than
-- 64770 missing numbers between the first two of them: the writer has counted one range and written at
-- least 256 blocks, and reports an inconsistent number of ranges.
pub write_ranges-long_gap :
    {o : ByteOrder}
    → (codec : IsCodec o) (masked : Bool) (lowest : ℕ) (r s : AckRange) (rs : List AckRange)
    → (r.last < 2 ^ 48) × (r.first ≤ r.last) × Descends r (s ∷ rs)
    → lowest ≡ lowest_of r.first (s ∷ rs)
    → s.last + 64771 < r.first
    → write_ranges o masked
        (missing_delta_len r.last lowest (r ∷ s ∷ rs))
        r.last
        lowest
        (r ∷ s ∷ rs)
      ≡ err inconsistent_ack_ranges
unfolding write_ranges missing_delta_len
write_ranges-long_gap codec masked lowest r s rs (bound, ne, d) low far =
    let many = many_blocks r s (omega arith) far in
    let len = missing_delta_len r.last lowest (r ∷ s ∷ rs) in
    let longest = max_range_length 0 (r ∷ s ∷ rs) in
    let below =
      max_range_length-lt (2 ^ 48) 0 (r ∷ s ∷ rs) (omega arith)
        (omega arith, range_lengths r (s ∷ rs) (omega arith) d) in
    let (fit, fit_all) =
      All-map (λ (x : AckRange) le. fits_length (range_length x) longest le below) (r ∷ s ∷ rs)
        (max_range_length-le 0 (r ∷ s ∷ rs)) in
    let (ns, wrote, reads) = write_number-RoundTrip codec masked len (range_length r) fit in
    let lengths = lengths-blocks_of_ranges _ 1 1 r (s ∷ rs) fit_all in
    let (bs, wrote', reads') =
      write_blocks-RoundTrip codec masked len (blocks_of_ranges 1 1 r (s ∷ rs)).0 (first_range 0 0)
        lengths in
    ground (arith, low, none_counted r s rs many, many_written r s rs many, wrote, wrote')
