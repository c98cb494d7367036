-- ===== src/Wire/AckBlocks/Apply.antt =====
-- src/sa-ecf/internal/wire/ack_frame.go and close_path_frame.go: the blocks of a list of ranges, read
-- one after the other, give the ranges back.
use ivsh.Common.{
  ℕ, zero, suc, ◌+◌, ◌-◌, ◌*◌, ◌/◌, ◌%◌, ◌^◌, ◌≤◌, ◌<◌, ◌≡◌, refl, ap, ◌∙◌, arith, List, [], ◌∷◌,
  ◌++◌, Bool, true, false, ◌==◌, length, All, Bool-cases, inl, inr,
}
use ivsh.Wire.AckFrame.{AckRange}
use ivsh.Wire.AckBlocks.{
  Block, Ranges, add_block, blocks_of_gap, blocks_of_range, gap_between, long_blocks,
}

-- Every range is nonempty, and lies behind the one before it with a gap in between.
abbrev pub Descends : AckRange → List AckRange → Type 0
Descends prev [] = Unit {0}
Descends prev (r ∷ rs) = (r.first ≤ r.last) × (r.last + 1 < prev.first) × Descends r rs

abbrev pub apply : List Block → Ranges → Ranges
apply [] s = s
apply (b ∷ bs) s = apply bs (add_block b s)

pub apply-append : (bs cs : List Block) (s : Ranges) → apply (bs ++ cs) s ≡ apply cs (apply bs s)
apply-append [] cs s = refl
apply-append (b ∷ bs) cs s = apply-append bs cs (add_block b s)

-- A range that is not complete is empty and lies behind all the blocks so far.
abbrev partial : ℕ → List AckRange → Ranges
partial last rs = record {
  ranges = record { first = last + 1; last = last } ∷ rs;
  in_long_block = true;
  last_range_complete = false;
}

abbrev pub complete : List AckRange → Ranges
complete rs = record { ranges = rs; in_long_block = false; last_range_complete = true }

abbrev range_of : ℕ → ℕ → AckRange
range_of first last = record { first = first; last = last }

last_block :
    (g len last : ℕ) (r : AckRange) (rs : List AckRange)
    → last < 2 ^ 62
    → r.last + g ≡ last
    → r.first + len ≡ r.last + 1
    → 0 < len
    → add_block (g, len) (partial last rs) ≡ complete (r ∷ rs)
last_block g len last r rs bound e f pos = ground arith

long_block :
    (last last' : ℕ) (rs : List AckRange)
    → last < 2 ^ 62
    → last' + 255 ≡ last
    → add_block (0xff, 0) (partial last rs) ≡ partial last' rs
long_block last last' rs bound e = ground arith

-- The blocks of a long gap after the first of them.
apply-long_blocks :
    (n gap len last : ℕ) (r : AckRange) (rs : List AckRange)
    → last < 2 ^ 62
    → r.last + (n * 255 + (1 + (gap - 1) % 255)) ≡ last
    → r.first + len ≡ r.last + 1
    → 0 < len
    → apply (long_blocks (suc n) gap len) (partial last rs) ≡ complete (r ∷ rs)
apply-long_blocks zero gap len last r rs bound e f pos =
    last_block (1 + (gap - 1) % 255) len last r rs bound (omega arith) f pos
apply-long_blocks (suc n) gap len last r rs bound e f pos =
    ap (apply (long_blocks (suc n) gap len)) (long_block last (last - 255) rs bound (omega arith))
    ∙ apply-long_blocks n gap len (last - 255) r rs (omega arith) (omega arith) f pos

first_block :
    (p : AckRange) (ps : List AckRange) (c : Bool) (last : ℕ)
    → p.first < 2 ^ 62
    → last + 256 ≡ p.first
    → add_block
        (0xff, 0)
        (record { ranges = p ∷ ps; in_long_block = false; last_range_complete = c })
      ≡ partial last (p ∷ ps)
first_block p ps c last bound e = ground arith

only_block :
    (p r : AckRange) (ps : List AckRange) (c : Bool) (gap len : ℕ)
    → p.first < 2 ^ 62
    → r.last + 1 + gap ≡ p.first
    → r.first + len ≡ r.last + 1
    → 0 < len
    → add_block
        (gap, len)
        (record { ranges = p ∷ ps; in_long_block = false; last_range_complete = c })
      ≡ complete (r ∷ p ∷ ps)
only_block p r ps c gap len bound e f pos = ground arith

-- How many blocks a gap takes.
pub blocks_of_gap_lem :
    (gap : ℕ)
    → 0 < gap
    → gap < 2 ^ 62
    → (n : ℕ) × (blocks_of_gap gap ≡ suc n) × (gap ≡ n * 255 + (1 + (gap - 1) % 255))
blocks_of_gap_lem gap pos bound = ((gap - 1) / 255, ground arith, omega arith)

two_blocks : (n : ℕ) → (suc (suc n) == 1) ≡ false
two_blocks n = ground arith

-- The ranges so far, the last of them `p`.
abbrev pub so_far : AckRange → List AckRange → Bool → Ranges
so_far p ps c = record { ranges = p ∷ ps; in_long_block = false; last_range_complete = c }

-- The blocks of a range behind `p` restore it.
module _ (p r : AckRange) (ps : List AckRange) (c : Bool) (len : ℕ) where
  apply_split :
      (n gap : ℕ)
      → p.first < 2 ^ 62
      → r.last + 1 + gap ≡ p.first
      → r.first + len ≡ r.last + 1
      → 0 < len
      → gap ≡ n * 255 + (1 + (gap - 1) % 255)
      → blocks_of_gap gap ≡ suc n
      → apply (blocks_of_range gap len) (so_far p ps c) ≡ complete (r ∷ p ∷ ps)
  apply_split zero gap bound e f pos g num =
      let short : gap % 2 ^ 8 ≡ gap = omega arith in
      rw (num, short) (only_block p r ps c gap len bound e f pos)
  apply_split (suc n) gap bound e f pos g num =
      rw (num, two_blocks n)
        (ap (apply (long_blocks (suc n) gap len))
            (first_block p ps c (p.first - 256) bound (omega arith))
          ∙ apply-long_blocks n gap len (p.first - 256) r (p ∷ ps) (omega arith) (omega arith) f
              pos)

  pub apply-blocks_of_range :
      p.first < 2 ^ 62
      → r.last + 1 < p.first
      → r.first + len ≡ r.last + 1
      → 0 < len
      → apply (blocks_of_range (gap_between p r) len) (so_far p ps c) ≡ complete (r ∷ p ∷ ps)
  apply-blocks_of_range bound below f pos =
      let gap : gap_between p r ≡ p.first - r.last - 1 = omega arith in
      let (n, num, g) = blocks_of_gap_lem (p.first - r.last - 1) (omega arith) (omega arith) in
      rw gap (apply_split n (p.first - r.last - 1) bound (omega arith) f pos g num)

length-long_blocks : (n gap len : ℕ) → length (long_blocks n gap len) ≡ n
length-long_blocks zero gap len = refl
length-long_blocks (suc zero) gap len = refl
length-long_blocks (suc (suc n)) gap len = ap suc (length-long_blocks (suc n) gap len)

pub length-blocks_of_range : (gap len : ℕ) → length (blocks_of_range gap len) ≡ blocks_of_gap gap
length-blocks_of_range gap len = elim (Bool-cases (blocks_of_gap gap == 1)) [
  | inl one ↦ rw one (ground (arith, one))
  | inr more ↦ rw more (length-long_blocks (blocks_of_gap gap) gap len)
]

-- Every block has the length of its range, or none.
lengths-long_blocks :
    (n gap len m : ℕ) → len < m → All (λ (b : Block). b.1 < m) (long_blocks n gap len)
lengths-long_blocks zero gap len m h = tt
lengths-long_blocks (suc zero) gap len m h = (h, tt)
lengths-long_blocks (suc (suc n)) gap len m h =
    (omega arith, lengths-long_blocks (suc n) gap len m h)

pub lengths-blocks_of_range :
    (gap len m : ℕ) → len < m → All (λ (b : Block). b.1 < m) (blocks_of_range gap len)
lengths-blocks_of_range gap len m h = elim (Bool-cases (blocks_of_gap gap == 1)) [
  | inl one ↦ rw one (h, tt)
  | inr more ↦ rw more (lengths-long_blocks (blocks_of_gap gap) gap len m h)
]
