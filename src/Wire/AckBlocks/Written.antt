-- ===== src/Wire/AckBlocks/Written.antt =====
-- src/sa-ecf/internal/wire/ack_frame.go and close_path_frame.go: which ranges a frame has room for, and
-- that the loops which count and write their blocks agree.
use ivsh.Common.{
  ℕ, ◌+◌, ◌-◌, ◌^◌, ◌≤◌, ◌<◌, ◌≡◌, refl, ap, sym, ◌∙◌, arith, List, [], ◌∷◌, ◌++◌, Bool, true,
  length, length-append, All, if◌then◌else◌, ltb, leb, Bool-cases, inl, inr,
}
use mathlib.Core.List.{reverse_aux}
use mathlib.Core.Path.{subst}
use ivsh.Wire.AckFrame.{AckRange}
use ivsh.Wire.AckBlocks.{
  Block, blocks_of_gap, blocks_of_range, blocks_of_ranges, count_writable, gap_between,
}
use ivsh.Wire.AckBlocks.Numbers.{range_length}
use ivsh.Wire.AckBlocks.Apply.{
  Descends, apply, apply-append, apply-blocks_of_range, so_far, blocks_of_gap_lem, complete,
  length-blocks_of_range, lengths-blocks_of_range,
}

-- The ranges behind `prev` that are written: with the `n` blocks before them they take fewer than 255.
abbrev pub written_ranges : ℕ → AckRange → List AckRange → List AckRange
written_ranges n prev [] = []
written_ranges n prev (r ∷ rs) =
    let num = blocks_of_gap (gap_between prev r) in
    if ltb (n + num) 0xff then r ∷ written_ranges (n + num) r rs else []

count_writable-le : (n : ℕ) (prev : AckRange) (rs : List AckRange) → n ≤ count_writable n prev rs
count_writable-le n prev [] = omega arith
count_writable-le n prev (r ∷ rs) =
    ground (arith, count_writable-le (n + blocks_of_gap (gap_between prev r)) r rs)

num_pos :
    (prev r : AckRange)
    → prev.first < 2 ^ 62
    → r.last + 1 < prev.first
    → 0 < blocks_of_gap (gap_between prev r)
num_pos prev r bound below =
    let gap : gap_between prev r ≡ prev.first - r.last - 1 = omega arith in
    let (n, num, g) = blocks_of_gap_lem (prev.first - r.last - 1) (omega arith) (omega arith) in
    rw (gap, num) (omega arith)

-- After the range `r`, the loop stops at once if no block is left to write, and then nothing more fits.
stops :
    (n : ℕ) (prev : AckRange) (rs : List AckRange)
    → prev.first < 2 ^ 62
    → Descends prev rs
    → count_writable n prev rs ≤ n
    → written_ranges n prev rs ≡ []
stops n prev [] bound d h = refl
stops n prev (r ∷ rs) bound (ne, below, d) h = ground (
  arith,
  num_pos prev r bound below,
  count_writable-le (n + blocks_of_gap (gap_between prev r)) r rs,
)

-- Otherwise the next range fits.
abbrev pub NextFits : ℕ → AckRange → List AckRange → Type 0
NextFits n prev [] = ⊥
NextFits n prev (r ∷ rs) = n + blocks_of_gap (gap_between prev r) < 0xff

goes_on :
    (n : ℕ) (prev : AckRange) (rs : List AckRange)
    → n < count_writable n prev rs
    → NextFits n prev rs
goes_on n prev [] h = omega arith
goes_on n prev (r ∷ rs) h = ground arith

-- The blocks of the ranges behind `prev` are as many as were counted, and give those ranges back.
abbrev Written : ℕ → ℕ → AckRange → List AckRange → List AckRange → Bool → Type 0
Written counted n prev rs ps c =
    let out = blocks_of_ranges (counted + 1) (n + 1) prev rs in
    (out.1 ≡ counted + 1)
    × (n + length out.0 ≡ counted)
    × (apply out.0 (so_far prev ps c)
        ≡ complete (reverse_aux (written_ranges n prev rs) (prev ∷ ps)))

-- One range is written; what follows is nothing if the count is reached.
one_range :
    (counted n : ℕ) (prev r : AckRange) (rs ps : List AckRange) (c : Bool)
    → prev.first < 2 ^ 62
    → (r.first ≤ r.last) × (r.last + 1 < prev.first) × Descends r rs
    → n + blocks_of_gap (gap_between prev r) < 0xff
    → count_writable (n + blocks_of_gap (gap_between prev r)) r rs ≡ counted
    → (n + blocks_of_gap (gap_between prev r) < counted
        → Written counted (n + blocks_of_gap (gap_between prev r)) r rs (prev ∷ ps) true)
    → Written counted n prev (r ∷ rs) ps c
unfolding blocks_of_ranges
one_range counted n prev r rs ps c bound (ne, below, d) fits count next =
    let num = blocks_of_gap (gap_between prev r) in
    let bs = blocks_of_range (gap_between prev r) (range_length r) in
    let fit : ltb (n + num) 0xff ≡ true = ground arith in
    let len : range_length r ≡ r.last - r.first + 1 = omega arith in
    let size : length bs ≡ num = length-blocks_of_range (gap_between prev r) (range_length r) in
    let written : n + 1 + length bs ≡ n + num + 1 = omega (arith, size) in
    let back =
      apply-blocks_of_range prev r ps c (range_length r) bound below (omega arith) (omega arith) in
    elim (Bool-cases (leb (counted + 1) (n + num + 1))) [
      | inl done ↦
          let le : counted ≤ n + num = ground (arith, done) in
          let same : counted ≡ n + num = omega (arith, count_writable-le (n + num) r rs) in
          rw (fit, written, done, stops (n + num) r rs (omega arith) d (omega arith))
            (omega (arith, same), omega (arith, same, size), back)
      | inr more ↦
          let gt : n + num < counted = ground (arith, more) in
          let (total, sizes, rest) = next gt in
          let out = (blocks_of_ranges (counted + 1) (n + num + 1) r rs).0 in
          rw (fit, written, more)
            (
              total,
              omega (arith, length-append bs out, size),
              apply-append bs out (so_far prev ps c) ∙ (ap (apply out) back ∙ rest),
            )
    ]

-- The count of the ranges is that of the blocks written, if the first of the ranges fits.
pub blocks_of_ranges-Written :
    (n : ℕ) (prev : AckRange) (rs ps : List AckRange) (c : Bool)
    → prev.first < 2 ^ 62
    → Descends prev rs
    → NextFits n prev rs
    → Written (count_writable n prev rs) n prev rs ps c
blocks_of_ranges-Written n prev [] ps c bound d h = absurd h
blocks_of_ranges-Written n prev (r ∷ rs) ps c bound (ne, below, d) h =
    let num = blocks_of_gap (gap_between prev r) in
    let fit : ltb (n + num) 0xff ≡ true = ground arith in
    let ih = blocks_of_ranges-Written (n + num) r rs (prev ∷ ps) true (omega arith) d in
    let counted = count_writable (n + num) r rs in
    let count : count_writable n prev (r ∷ rs) ≡ counted = rw fit in
    subst (λ total. Written total n prev (r ∷ rs) ps c) (sym count)
      (one_range counted n prev r rs ps c bound (ne, below, d) h refl
        (λ gt. ih (goes_on (n + num) r rs gt)))

All-append_blocks :
    (m : ℕ) (xs ys : List Block)
    → All (λ (b : Block). b.1 < m) xs
    → All (λ (b : Block). b.1 < m) ys
    → All (λ (b : Block). b.1 < m) (xs ++ ys)
All-append_blocks m [] ys h k = k
All-append_blocks m (x ∷ xs) ys (p, h) k = (p, All-append_blocks m xs ys h k)

-- Every block has the length of one of the ranges, or none.
pub lengths-blocks_of_ranges :
    (m counted n : ℕ) (prev : AckRange) (rs : List AckRange)
    → All (λ r. range_length r < m) rs
    → All (λ (b : Block). b.1 < m) (blocks_of_ranges counted n prev rs).0
unfolding blocks_of_ranges
lengths-blocks_of_ranges m counted n prev [] h = tt
lengths-blocks_of_ranges m counted n prev (r ∷ rs) (lt, h) =
    let bs = blocks_of_range (gap_between prev r) (range_length r) in
    let here = lengths-blocks_of_range (gap_between prev r) (range_length r) m lt in
    let rest = lengths-blocks_of_ranges m counted (n + length bs) r rs h in
    elim (Bool-cases (leb counted (n + length bs))) [
      | inl done ↦ rw done here
      | inr more ↦ rw more (All-append_blocks m bs _ here rest)
    ]

-- At least one and at most 254 blocks follow the first range.
pub count_writable-lt :
    (n : ℕ) (prev : AckRange) (rs : List AckRange) → n < 0xff → count_writable n prev rs < 0xff
count_writable-lt n prev [] h = h
count_writable-lt n prev (r ∷ rs) h =
    let num = blocks_of_gap (gap_between prev r) in
    elim (Bool-cases (ltb (n + num) 0xff)) [
      | inl fits ↦ rw fits (count_writable-lt (n + num) r rs (ground (arith, fits)))
      | inr full ↦ rw full h
    ]

pub count_writable-pos :
    (prev : AckRange) (rs : List AckRange)
    → prev.first < 2 ^ 62
    → Descends prev rs
    → NextFits 0 prev rs
    → 0 < count_writable 0 prev rs
count_writable-pos prev [] bound d h = absurd h
count_writable-pos prev (r ∷ rs) bound (ne, below, d) h =
    let num = blocks_of_gap (gap_between prev r) in
    let fits : ltb (0 + num) 0xff ≡ true = ground arith in
    rw fits (omega (arith, num_pos prev r bound below, count_writable-le (0 + num) r rs))
