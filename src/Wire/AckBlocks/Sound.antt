-- ===== src/Wire/AckBlocks/Sound.antt =====
-- src/sa-ecf/internal/wire/ack_frame.go and close_path_frame.go: the ranges that `validateAckRanges`
-- accepts, and what is read of them.
use ivsh.Common.{
  ℕ, ◌+◌, ◌-◌, ◌^◌, ◌≤◌, ◌<◌, ◌≡◌, refl, arith, List, ◌&&◌, [], ◌∷◌, Bool, true, false, not, All,
  ltb, ◌==◌, add64, sub64, Bool-cases, inl, inr,
}
use ivsh.Protocol.PacketNumber.{bytes_of}
use ivsh.Utils.ByteOrder.{ByteOrder, IsCodec}
use ivsh.Wire.AckFrame.{AckRange, is_empty, are_valid_ranges, all_consistent, all_nonempty}
use ivsh.Wire.Control.RoundTrip.{RoundTrip}
use ivsh.Wire.AckBlocks.{
  count_writable, lowest_of, missing_delta_len, num_writable_nack_ranges, parse_ranges, ranges_from,
  write_ranges, blocks_of_gap, gap_between,
}
use ivsh.Wire.AckBlocks.Numbers.{write_number-RoundTrip, fits_length}
use ivsh.Wire.AckBlocks.Apply.{Descends}
use ivsh.Wire.AckBlocks.Written.{count_writable-lt, count_writable-pos, NextFits, written_ranges}
use ivsh.Wire.AckBlocks.RoundTrip.{write_ranges-RoundTrip}

-- The ranges of a frame that are read of it: as many as fit.
abbrev pub written_part : List AckRange → List AckRange
written_part [] = []
written_part (r ∷ rs) = r ∷ written_ranges 0 r rs

abbrev pub HasRoom : List AckRange → Type 0
HasRoom [] = Unit {0}
HasRoom (r ∷ rs) = NextFits 0 r rs

-- The numbers fit 48 bits and do not start before 1, the ranges are valid and end with the lowest number, and the
-- second of them has room.
pub record IsSound (largest lowest : ℕ) (ranges : List AckRange) : Type 0 where
  pub bound : largest < 2 ^ 48
  pub bounds : All (λ (r : AckRange). r.last < 2 ^ 48) ranges
  pub positive : 0 < lowest
  pub ordered : lowest ≤ largest
  pub valid : are_valid_ranges largest ranges ≡ true
  pub lowest_last : lowest ≡ lowest_of lowest ranges
  pub room : HasRoom ranges

valid-le : (r : AckRange) (rs : List AckRange) → all_nonempty (r ∷ rs) ≡ true → r.first ≤ r.last
valid-le r rs h = ground arith

valid-tail :
    (r : AckRange) (rs : List AckRange) → all_nonempty (r ∷ rs) ≡ true → all_nonempty rs ≡ true
valid-tail r rs h = ground arith

consistent-tail :
    (r s : AckRange) (rs : List AckRange)
    → s.last < 2 ^ 48
    → all_consistent (r ∷ s ∷ rs) ≡ true
    → (s.last + 1 < r.first) × (all_consistent (s ∷ rs) ≡ true)
consistent-tail r s rs bound h = (ground arith, ground arith)

Descends-valid :
    (r : AckRange) (rs : List AckRange)
    → All (λ (x : AckRange). x.last < 2 ^ 48) (r ∷ rs)
    → all_nonempty (r ∷ rs) ≡ true
    → all_consistent (r ∷ rs) ≡ true
    → Descends r rs
Descends-valid r [] bounds ne h = tt
Descends-valid r (s ∷ rs) (bound, (bound', bounds)) ne h =
    let tail = valid-tail r (s ∷ rs) ne in
    let (below, rest) = consistent-tail r s rs bound' h in
    (valid-le s rs tail, below, Descends-valid s rs (bound', bounds) tail rest)

valid-Descends :
    (r : AckRange) (rs : List AckRange)
    → r.last < 2 ^ 48
    → r.first ≤ r.last
    → Descends r rs
    → (all_nonempty (r ∷ rs) ≡ true) × (all_consistent (r ∷ rs) ≡ true)
valid-Descends r [] bound ne d = (ground arith, refl)
valid-Descends r (s ∷ rs) bound ne (ne', below, d) =
    let (rest, rest') = valid-Descends s rs (omega arith) ne' d in
    (ground (arith, rest), ground (arith, rest'))

Descends-written :
    (n : ℕ) (r : AckRange) (rs : List AckRange) → Descends r rs → Descends r (written_ranges n r rs)
Descends-written n r [] d = tt
Descends-written n r (s ∷ rs) (ne, below, d) =
    let num = blocks_of_gap (gap_between r s) in
    let rest = Descends-written (n + num) s rs d in
    elim (Bool-cases (ltb (n + num) 0xff)) [
      | inl fits ↦ rw fits (ne, below, rest)
      | inr full ↦ rw full tt
    ]

-- The parts of a valid list of ranges.
split_valid :
    (largest : ℕ) (r s : AckRange) (rs : List AckRange)
    → are_valid_ranges largest (r ∷ s ∷ rs) ≡ true
    → (r.last ≡ largest) × (all_nonempty (r ∷ s ∷ rs) ≡ true) × (all_consistent (r ∷ s ∷ rs) ≡ true)
split_valid largest r s rs h = (ground arith, ground arith, ground arith)

join_valid :
    (largest : ℕ) (r s : AckRange) (rs : List AckRange)
    → r.last ≡ largest
    → all_nonempty (r ∷ s ∷ rs) ≡ true
    → all_consistent (r ∷ s ∷ rs) ≡ true
    → are_valid_ranges largest (r ∷ s ∷ rs) ≡ true
join_valid largest r s rs e ne h = ground (arith, e, ne, h)

-- What validation gives of a list of ranges.
pub IsSound-Descends :
    (largest lowest : ℕ) (r : AckRange) (rs : List AckRange)
    → IsSound largest lowest (r ∷ rs)
    → (r.last ≡ largest) × (r.first ≤ r.last) × Descends r rs
IsSound-Descends largest lowest r [] h = absurd h.room
IsSound-Descends largest lowest r (s ∷ rs) h =
    let (e, ne, c) = split_valid largest r s rs h.valid in
    (e, valid-le r (s ∷ rs) ne, Descends-valid r (s ∷ rs) h.bounds ne c)

-- What is read of the ranges is valid, too.
pub written_part-valid :
    (largest lowest : ℕ) (ranges : List AckRange)
    → IsSound largest lowest ranges
    → are_valid_ranges largest (written_part ranges) ≡ true
written_part-valid largest lowest [] h = refl
written_part-valid largest lowest (r ∷ []) h = absurd h.room
written_part-valid largest lowest (r ∷ s ∷ rs) h =
    let num = blocks_of_gap (gap_between r s) in
    let fits : ltb (0 + num) 0xff ≡ true = ground (arith, h.room) in
    let (e, le, (ne, below, d)) = IsSound-Descends largest lowest r (s ∷ rs) h in
    let d' : Descends r (s ∷ written_ranges (0 + num) s rs) =
      (ne, below, Descends-written (0 + num) s rs d) in
    let (all_ne, all_c) = valid-Descends r (s ∷ written_ranges (0 + num) s rs) h.bounds.0 le d' in
    rw fits (join_valid largest r s (written_ranges (0 + num) s rs) e all_ne all_c)

-- The number of blocks behind the first range is 1 to 254 if there are ranges.
pub num_writable-range :
    (largest lowest : ℕ) (ranges : List AckRange)
    → IsSound largest lowest ranges
    → let n = num_writable_nack_ranges ranges in
      (n ≤ 0xff) × ((not (is_empty ranges) && (n - 1 == 0)) ≡ false)
unfolding num_writable_nack_ranges
num_writable-range largest lowest [] h = (omega arith, refl)
num_writable-range largest lowest (r ∷ rs) h =
    let (e, le, d) = IsSound-Descends largest lowest r rs h in
    let pos = count_writable-pos r rs (omega (arith, h.bound)) d h.room in
    (omega (arith, count_writable-lt 0 r rs (omega arith)), ground (arith, pos))

module _ {o : ByteOrder} (codec : IsCodec o) (masked : Bool) where
  without_gaps :
      (largest lowest : ℕ)
      → largest < 2 ^ 48
      → 0 < lowest
      → lowest ≤ largest
      → RoundTrip
          (write_ranges o masked (missing_delta_len largest lowest []) largest lowest [])
          (parse_ranges o (bytes_of (missing_delta_len largest lowest [])) false largest 0)
          (lowest, [])
  unfolding write_ranges parse_ranges missing_delta_len ranges_from
  without_gaps largest lowest bound pos le =
      let n = add64 (sub64 largest lowest) 1 in
      let (bs, wrote, reads) =
        write_number-RoundTrip codec masked (missing_delta_len largest lowest []) n
          (fits_length n n (omega arith) (omega arith)) in
      (bs, wrote, λ rest. ground (arith, reads rest))

  -- The first length and the blocks of sound ranges are read as they were written, as far as they fit.
  pub sound-RoundTrip :
      (largest lowest : ℕ) (ranges : List AckRange)
      → IsSound largest lowest ranges
      → let len = missing_delta_len largest lowest ranges in
        RoundTrip
          (write_ranges o masked len largest lowest ranges)
          (parse_ranges o
            (bytes_of len)
            (not (is_empty ranges))
            largest
            (num_writable_nack_ranges ranges - 1))
          (lowest_of lowest (written_part ranges), written_part ranges)
  unfolding num_writable_nack_ranges
  sound-RoundTrip largest lowest [] h = without_gaps largest lowest h.bound h.positive h.ordered
  sound-RoundTrip largest lowest (r ∷ rs) h =
      let (e, le, d) = IsSound-Descends largest lowest r rs h in
      let last_bound : r.last < 2 ^ 48 = omega (arith, h.bound) in
      let n : count_writable 0 r rs + 1 - 1 ≡ count_writable 0 r rs = omega arith in
      rw (n, ← e)
        (write_ranges-RoundTrip codec masked lowest r rs (last_bound, le, d) h.lowest_last h.room)
