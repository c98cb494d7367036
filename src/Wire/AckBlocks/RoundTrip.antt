-- ===== src/Wire/AckBlocks/RoundTrip.antt =====
-- src/sa-ecf/internal/wire/ack_frame.go and close_path_frame.go: the ranges that a frame has room for are
-- parsed as they were written.
use ivsh.Common.{
  ℕ, ◌+◌, ◌*◌, ◌^◌, ◌≤◌, ◌<◌, ◌≡◌, refl, ap, sym, ◌∙◌, arith, List, ◌&&◌, [], ◌∷◌, ◌++◌, Bool, true,
  false, length, All, All-map, ltb,
}
use mathlib.Core.List.{reverse, reverse_aux, append_assoc}
use ivsh.Common.Result.{ok}
use ivsh.Protocol.PacketNumber.{PacketNumberLen, bytes_of}
use ivsh.Utils.ByteOrder.{ByteOrder, IsCodec}
use ivsh.Wire.AckFrame.{AckRange}
use ivsh.Wire.Control.RoundTrip.{RoundTrip}
use ivsh.Wire.AckBlocks.{
  parse_blocks, drop_incomplete, write_blocks, first_range, blocks_of_ranges, count_writable,
  first_of, lowest_of, max_range_length, missing_delta_len, num_writable_nack_ranges, parse_ranges,
  ranges_from, write_ranges,
}
use ivsh.Wire.AckBlocks.Numbers.{
  range_length, write_number-RoundTrip, write_blocks-RoundTrip, fits_length, max_range_length-le,
  max_range_length-lt,
}
use ivsh.Wire.AckBlocks.Apply.{complete, Descends, so_far}
use ivsh.Wire.AckBlocks.Written.{
  NextFits, written_ranges, blocks_of_ranges-Written, lengths-blocks_of_ranges,
}

-- Every range of a frame is shorter than the largest packet number.
pub range_lengths :
    (prev : AckRange) (rs : List AckRange)
    → prev.first < 2 ^ 48
    → Descends prev rs
    → All (λ r. range_length r < 2 ^ 48) rs
range_lengths prev [] bound d = tt
range_lengths prev (r ∷ rs) bound (ne, below, d) = (omega arith, range_lengths r rs (omega arith) d)

-- The parser has the ranges in reverse.
reverse-reverse_aux :
    (xs ys : List AckRange) → reverse_aux (reverse_aux xs ys) [] ≡ reverse_aux ys xs
reverse-reverse_aux [] ys = refl
reverse-reverse_aux (x ∷ xs) ys = reverse-reverse_aux xs (x ∷ ys)

first_of-reverse_aux :
    (p : AckRange) (ps xs : List AckRange)
    → first_of (reverse_aux xs (p ∷ ps)) ≡ lowest_of p.first xs
first_of-reverse_aux p ps [] = refl
first_of-reverse_aux p ps (x ∷ xs) = first_of-reverse_aux x (p ∷ ps) xs

first_pos : (r : AckRange) (rs : List AckRange) → Descends r rs → NextFits 0 r rs → 0 < r.first
first_pos r [] d fits = absurd fits
first_pos r (s ∷ rs) (ne, below, d) fits = omega arith

start :
    (r : AckRange)
    → r.last < 2 ^ 48
    → r.first ≤ r.last
    → 0 < r.first
    → first_range r.last (range_length r) ≡ so_far r [] false
start r bound ne pos = ground arith

-- The parser behind the length of the first range.
checks_pass :
    (r : AckRange)
    → r.last < 2 ^ 48
    → r.first ≤ r.last
    → 0 < r.first
    → ((ltb 0 r.last && ltb (range_length r) 1) ≡ false) × (ltb r.last (range_length r) ≡ false)
checks_pass r bound ne pos = (ground arith, ground arith)

drop_incomplete-complete : (rs : List AckRange) → drop_incomplete (complete rs) ≡ rs
drop_incomplete-complete [] = refl
drop_incomplete-complete (r ∷ rs) = refl

-- What the parser makes of the restored ranges.
result_of :
    (r : AckRange) (written : List AckRange)
    → let s = complete (reverse_aux written (r ∷ [])) in
      (first_of (drop_incomplete s) ≡ lowest_of r.first written)
      × (reverse (drop_incomplete s) ≡ r ∷ written)
result_of r written =
    rw (drop_incomplete-complete)
      (first_of-reverse_aux r [] written, reverse-reverse_aux written (r ∷ []))

module _ {o : ByteOrder} (codec : IsCodec o) (masked : Bool) where
  ranges_from-RoundTrip :
      (len : PacketNumberLen) (r : AckRange) (rs : List AckRange)
      → r.last < 2 ^ 48
      → r.first ≤ r.last
      → Descends r rs
      → NextFits 0 r rs
      → All (λ r. range_length r < 2 ^ (bytes_of len * 8)) rs
      → let num_ranges = num_writable_nack_ranges (r ∷ rs) in
        let written = written_ranges 0 r rs in
        RoundTrip
          (write_blocks o masked len (blocks_of_ranges num_ranges 1 r rs).0)
          (ranges_from o (bytes_of len) true r.last (count_writable 0 r rs) (range_length r))
          (lowest_of r.first written, r ∷ written)
  unfolding ranges_from num_writable_nack_ranges
  ranges_from-RoundTrip len r rs bound ne d fits all =
      let counted = count_writable 0 r rs in
      let (total, sizes, back) = blocks_of_ranges-Written 0 r rs [] false (omega arith) d fits in
      let blocks = (blocks_of_ranges (counted + 1) 1 r rs).0 in
      let lengths = lengths-blocks_of_ranges (2 ^ (bytes_of len * 8)) (counted + 1) 1 r rs all in
      let (bs, wrote, reads) =
        write_blocks-RoundTrip codec masked len blocks (so_far r [] false) lengths in
      let size : length blocks ≡ counted = omega (arith, sizes) in
      let (first, ranges) = result_of r (written_ranges 0 r rs) in
      (
        bs,
        wrote,
        λ rest.
            let reads' : parse_blocks o (bytes_of len) counted (first_range r.last (range_length r))
                  (bs ++ rest)
                ≡ ok (complete (reverse_aux (written_ranges 0 r rs) (r ∷ [])), rest) =
              ap (λ s. parse_blocks o (bytes_of len) counted s (bs ++ rest))
                (start r bound ne (first_pos r rs d fits))
              ∙ (ap (λ n. parse_blocks o (bytes_of len) n (so_far r [] false) (bs ++ rest))
                    (sym size)
                  ∙ (reads rest ∙ ap (λ s. ok (s, rest)) back)) in
            rw (reads', first, ranges) refl,
      )

  -- What the ranges `r ∷ rs` are read as: as many of them as fit.
  pub write_ranges-RoundTrip :
      (lowest : ℕ) (r : AckRange) (rs : List AckRange)
      → (r.last < 2 ^ 48) × (r.first ≤ r.last) × Descends r rs
      → lowest ≡ lowest_of r.first rs
      → NextFits 0 r rs
      → let len = missing_delta_len r.last lowest (r ∷ rs) in
        let written = written_ranges 0 r rs in
        RoundTrip
          (write_ranges o masked len r.last lowest (r ∷ rs))
          (parse_ranges o (bytes_of len) true r.last (count_writable 0 r rs))
          (lowest_of r.first written, r ∷ written)
  unfolding write_ranges parse_ranges missing_delta_len num_writable_nack_ranges
  write_ranges-RoundTrip lowest r rs (bound, ne, d) low fits =
      let len = missing_delta_len r.last lowest (r ∷ rs) in
      let longest = max_range_length 0 (r ∷ rs) in
      let pos = first_pos r rs d fits in
      let below =
        max_range_length-lt (2 ^ 48) 0 (r ∷ rs) (omega arith)
          (omega arith, range_lengths r rs (omega arith) d) in
      let (fit, fit_all) =
        All-map (λ (x : AckRange) le. fits_length (range_length x) longest le below) (r ∷ rs)
          (max_range_length-le 0 (r ∷ rs)) in
      let (total, sizes, back) = blocks_of_ranges-Written 0 r rs [] false (omega arith) d fits in
      let (ns, wrote, reads) = write_number-RoundTrip codec masked len (range_length r) fit in
      let (bs, wrote', reads') = ranges_from-RoundTrip len r rs bound ne d fits fit_all in
      let (c1, c2) = checks_pass r bound ne pos in
      (
        ns ++ bs,
        ground (arith, low, wrote, wrote', total),
        λ rest. simp append_assoc (rw (reads (bs ++ rest), c1, c2) (reads' rest)),
      )
