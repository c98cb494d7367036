-- ===== src/Wire/AckBlocks/Numbers.antt =====
-- src/sa-ecf/internal/wire/ack_frame.go and close_path_frame.go: numbers and blocks are read as they
-- were written.
use ivsh.Common.{
  ℕ, ◌*◌, ◌%◌, ◌^◌, ◌≤◌, ◌<◌, ◌≡◌, refl, ap, ◌∙◌, arith, List, [], ◌∷◌, ◌++◌, Bool, true, false,
  length, All, if◌then◌else◌, ltb, leb, add64, sub64, Bool-cases, inl, inr,
}
use native.Mathlib.Nat.{mod-eq_of_lt}
use mathlib.Core.List.{append_assoc}
use ivsh.Common.Result.{ok}
use ivsh.Protocol.PacketNumber.{PacketNumberLen, len1, len2, len4, len6, bytes_of}
use ivsh.Utils.ByteOrder.{ByteOrder, IsCodec}
use ivsh.Wire.Control.RoundTrip.{RoundTrip}
use ivsh.Wire.AckFrame.{AckRange}
use ivsh.Wire.AckBlocks.{
  Block, add_block, Ranges, length_of_number, max_range_length, parse_blocks, write_blocks,
  write_number,
}
use ivsh.Wire.AckBlocks.Apply.{apply}

masked_lem : (masked : Bool) (n : ℕ) → n < 2 ^ 48 → (if masked then n % 2 ^ 48 else n) ≡ n
masked_lem true n h = mod-eq_of_lt h
masked_lem false n h = refl

module _ {o : ByteOrder} (codec : IsCodec o) (masked : Bool) where
  pub write_number-RoundTrip :
      (len : PacketNumberLen) (n : ℕ)
      → n < 2 ^ (bytes_of len * 8)
      → RoundTrip (write_number o masked len n) (o.read_uint_n (bytes_of len)) n
  unfolding write_number
  write_number-RoundTrip len1 n h =
      (n ∷ [], ap ok (ap (λ (t : ℕ). t ∷ []) (mod-eq_of_lt h)), codec.one_byte n h)
  write_number-RoundTrip len2 n h =
      (o.write_uint16 n, ap ok (ap o.write_uint16 (mod-eq_of_lt h)), (codec.n_uint16 n h).2)
  write_number-RoundTrip len4 n h =
      (o.write_uint32 n, ap ok (ap o.write_uint32 (mod-eq_of_lt h)), (codec.n_uint32 n h).2)
  write_number-RoundTrip len6 n h =
      let (bs, wrote, reads) = codec.n_uint48 n h in
      (bs, ap o.write_uint48 (masked_lem masked n h) ∙ wrote, reads.2)

  pub write_blocks-RoundTrip :
      (len : PacketNumberLen) (blocks : List Block) (s : Ranges)
      → All (λ (b : Block). b.1 < 2 ^ (bytes_of len * 8)) blocks
      → RoundTrip
          (write_blocks o masked len blocks)
          (parse_blocks o (bytes_of len) (length blocks) s)
          (apply blocks s)
  unfolding write_blocks parse_blocks
  write_blocks-RoundTrip len [] s h = ([], refl, λ rest. refl)
  write_blocks-RoundTrip len ((gap, n) ∷ bs) s (fits, h) =
      let (ns, wrote, reads) = write_number-RoundTrip len n fits in
      let (cs, wrote', reads') = write_blocks-RoundTrip len bs (add_block (gap, n) s) h in
      (
        gap ∷ (ns ++ cs),
        rw (wrote, wrote') refl,
        λ rest. simp append_assoc (rw (reads (cs ++ rest)) (reads' rest)),
      )

-- The chosen length has room for the longest range.
pub fits_length :
    (n longest : ℕ)
    → n ≤ longest
    → longest < 2 ^ 48
    → n < 2 ^ (bytes_of (length_of_number longest) * 8)
fits_length n longest le h = elim (Bool-cases (leb longest 0xff)) [
  | inl one ↦ rw one (ground (arith, one))
  | inr more ↦ elim (Bool-cases (leb longest 0xffff)) [
    | inl two ↦ rw (more, two) (ground (arith, two))
    | inr more' ↦ elim (Bool-cases (leb longest 0xffff_ffff)) [
      | inl four ↦ rw (more, more', four) (ground (arith, four))
      | inr six ↦ rw (more, more', six) (omega arith)
    ]
  ]
]

abbrev pub range_length : AckRange → ℕ
range_length r = add64 (sub64 r.last r.first) 1

longest-le : (longest : ℕ) (rs : List AckRange) → longest ≤ max_range_length longest rs
longest-le longest [] = omega arith
longest-le longest (r ∷ rs) = ground (arith, longest-le longest rs, longest-le (range_length r) rs)

pub max_range_length-le :
    (longest : ℕ) (rs : List AckRange) → All (λ r. range_length r ≤ max_range_length longest rs) rs
max_range_length-le longest [] = tt
max_range_length-le longest (r ∷ rs) =
    let longest' = if ltb longest (range_length r) then range_length r else longest in
    let here : range_length r ≤ longest' = ground arith in
    (omega (arith, longest-le longest' rs), max_range_length-le longest' rs)

pub max_range_length-lt :
    (bound longest : ℕ) (rs : List AckRange)
    → longest < bound
    → All (λ r. range_length r < bound) rs
    → max_range_length longest rs < bound
max_range_length-lt bound longest [] h all = h
max_range_length-lt bound longest (r ∷ rs) h (lt, all) =
    max_range_length-lt bound (if ltb longest (range_length r) then range_length r else longest) rs
      (ground arith) all
