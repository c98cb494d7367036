-- ===== src/Utils/ByteOrder/BigEndian/Codec.antt =====
-- src/sa-ecf/internal/utils/byteorder_big_endian.go: reading undoes writing, at each width.
use Prim.Native.Nat.{bit_xor}
use ivsh.Common.{
  ℕ, zero, suc, ◌+◌, ◌*◌, ◌/◌, ◌%◌, ◌^◌, ◌≤◌, ◌<◌, ◌≡◌, refl, ap, ◌∙◌, arith, List, [], ◌∷◌, ◌++◌,
}
use native.Mathlib.Nat.{zero-add}
use ivsh.Common.{length, All}
use ivsh.Common.Bits.{shifted-bit_xor, pow_byte, pow_byte-le, byte_weight-lt, byte-lt, pow_pos}
use ivsh.Common.Result.{ok}
use ivsh.Utils.Reader.{IsByte}
use ivsh.Utils.ByteOrder.Interface.{IsCodec, Reads}
use ivsh.Utils.ByteOrder.BigEndian

-- The number whose bytes are `bs`, highest first.
abbrev value : List ℕ → ℕ
value [] = 0
value (b ∷ bs) = b * 2 ^ (length bs * 8) + value bs

-- A round with `n` more to go adds the byte `b` below the bytes that are read.
add_byte :
    (n y b : ℕ)
    → n ≤ 7
    → b < 256
    → bit_xor (y * 2 ^ ((n + 1) * 8)) (b * 2 ^ (n * 8 % 256) % 2 ^ 64) ≡ (y * 256 + b) * 2 ^ (n * 8)
add_byte n y b hn hb =
    let shift : n * 8 % 256 ≡ n * 8 = omega arith in
    let fits : b * 2 ^ (n * 8) % 2 ^ 64 ≡ b * 2 ^ (n * 8) =
      omega (arith, byte_weight-lt b (2 ^ (n * 8)) hb (pow_byte-le n hn)) in
    let low : b * 2 ^ (n * 8) < 2 ^ ((n + 1) * 8) =
      rw (pow_byte n) (byte-lt b (2 ^ (n * 8)) hb (pow_pos n)) in
    rw (shift, fits, shifted-bit_xor ((n + 1) * 8) _ y low)
      (omega (arith, ap (λ (t : ℕ). y * t) (pow_byte n)))

read_loop-value :
    (bs rest : List ℕ) (y : ℕ)
    → All IsByte bs
    → length bs ≤ 8
    → BigEndian.read_uint_n_loop (length bs) (y * 2 ^ (length bs * 8)) (bs ++ rest)
      ≡ ok (y * 2 ^ (length bs * 8) + value bs, rest)
unfolding BigEndian.read_uint_n_loop
read_loop-value [] rest y hb h = ap (λ (t : ℕ). ok (t, rest)) (omega arith)
read_loop-value (b ∷ bs) rest y (hb, hbs) h =
    let n = length bs in
    let next : suc n ≡ n + 1 = omega arith in
    rw (next, add_byte n y b (omega arith) hb)
      (read_loop-value bs rest (y * 256 + b) hbs (omega arith)
        ∙ ap (λ (t : ℕ). ok (t, rest)) (omega (arith, ap (λ (t : ℕ). y * t) (pow_byte n))))

-- A list of bytes of value `i` is read as `i`.
read_uint_n-value :
    (n i : ℕ) (bs : List ℕ)
    → length bs ≡ n
    → n ≤ 8
    → All IsByte bs
    → value bs ≡ i
    → Reads (BigEndian.read_uint_n n) n bs i
unfolding BigEndian.read_uint_n
read_uint_n-value n i bs hn h hb hv = (hn, hb, loop)
  where
    loop : (rest : List ℕ) → BigEndian.read_uint_n_loop n 0 (bs ++ rest) ≡ ok (i, rest)
    loop rest =
        let start : 0 * 2 ^ (length bs * 8) ≡ 0 = omega arith in
        rw (← hn, ← hv) (rw (start, zero-add) at (read_loop-value bs rest 0 hb (omega arith)))

-- The `n` lowest bytes of `i`.
abbrev high_bytes : ℕ → ℕ → List ℕ
high_bytes zero i = []
high_bytes (suc n) i = i / 2 ^ (n * 8) % 256 ∷ high_bytes n i

-- In big-endian order reading undoes writing at each width, and the narrow writes do not panic
-- on numbers of their width.
pub big_endian-IsCodec : IsCodec BigEndian.big_endian
unfolding BigEndian.big_endian
big_endian-IsCodec = record {
  uint64 = λ i h. (refl, omega arith, λ rest. ground arith);
  uint32 = λ i h. (refl, omega arith, λ rest. ground arith);
  uint16 = λ i h. (refl, omega arith, λ rest. ground arith);
  one_byte =
      λ i h. (read_uint_n-value 1 i (i ∷ []) refl (omega arith) (omega arith) (omega arith)).2;
  no_byte = λ rest. refl;
  n_uint16 =
      λ i h. read_uint_n-value 2 i (high_bytes 2 i) refl (omega arith) (omega arith) (omega arith);
  n_uint32 =
      λ i h. read_uint_n-value 4 i (high_bytes 4 i) refl (omega arith) (omega arith) (omega arith);
  n_uint64 =
      λ i h. read_uint_n-value 8 i (high_bytes 8 i) refl (omega arith) (omega arith) (omega arith);
  n_uint24 = λ i h. (
    high_bytes 3 i,
    ground arith,
    read_uint_n-value 3 i (high_bytes 3 i) refl (omega arith) (omega arith) (omega arith),
  );
  n_uint40 = λ i h. (
    high_bytes 5 i,
    ground arith,
    read_uint_n-value 5 i (high_bytes 5 i) refl (omega arith) (omega arith) (omega arith),
  );
  n_uint48 = λ i h. (
    high_bytes 6 i,
    ground arith,
    read_uint_n-value 6 i (high_bytes 6 i) refl (omega arith) (omega arith) (omega arith),
  );
  n_uint56 = λ i h. (
    high_bytes 7 i,
    ground arith,
    read_uint_n-value 7 i (high_bytes 7 i) refl (omega arith) (omega arith) (omega arith),
  );
}
