-- ===== src/Utils/ByteOrder/LittleEndian/Codec.antt =====
-- src/sa-ecf/internal/utils/byteorder_little_endian.go: reading undoes writing, at each width.
use Prim.Native.Nat.{bit_xor}
use ivsh.Common.{
  ℕ, zero, suc, ◌+◌, ◌*◌, ◌/◌, ◌%◌, ◌^◌, ◌≤◌, ◌<◌, ◌≡◌, refl, ap, ◌∙◌, arith, List, [], ◌∷◌, ◌++◌,
}
use ivsh.Common.{length, All}
use ivsh.Common.Bits.{bit_xor-shifted, pow_byte, pow_byte-le, byte_weight-lt, below_next_byte}
use ivsh.Common.Result.{ok}
use ivsh.Utils.Reader.{IsByte}
use ivsh.Utils.ByteOrder.Interface.{IsCodec, Reads}
use ivsh.Utils.ByteOrder.LittleEndian

-- The number whose bytes are `bs`, lowest first.
abbrev value : List ℕ → ℕ
value [] = 0
value (b ∷ bs) = b + value bs * 256

-- Round `i` adds the byte `b` above the `i` bytes that are read.
add_byte :
    (i res b : ℕ)
    → i ≤ 7
    → b < 256
    → res < 2 ^ (i * 8)
    → bit_xor res (b * 2 ^ (i * 8 % 256) % 2 ^ 64) ≡ res + b * 2 ^ (i * 8)
add_byte i res b hi hb h =
    let shift : i * 8 % 256 ≡ i * 8 = omega arith in
    let fits : b * 2 ^ (i * 8) % 2 ^ 64 ≡ b * 2 ^ (i * 8) =
      omega (arith, byte_weight-lt b (2 ^ (i * 8)) hb (pow_byte-le i hi)) in
    rw (shift, fits) (bit_xor-shifted (i * 8) res b h)

read_loop-value :
    (bs rest : List ℕ) (i res : ℕ)
    → All IsByte bs
    → i + length bs ≤ 8
    → res < 2 ^ (i * 8)
    → LittleEndian.read_uint_n_loop (length bs) i res (bs ++ rest)
      ≡ ok (res + value bs * 2 ^ (i * 8), rest)
unfolding LittleEndian.read_uint_n_loop
read_loop-value [] rest i res hb hi h = ground arith
read_loop-value (b ∷ bs) rest i res (hb, hbs) hi h = rw (add_byte i res b (omega arith) hb h) (
    read_loop-value bs rest (i + 1) (res + b * 2 ^ (i * 8)) hbs (omega arith)
      (omega (arith, pow_byte i, below_next_byte res b (2 ^ (i * 8)) h hb))
    ∙ ap (λ (t : ℕ). ok (t, rest)) (omega (arith, ap (λ (t : ℕ). value bs * t) (pow_byte i))))

-- A list of bytes of value `i` is read as `i`.
read_uint_n-value :
    (n i : ℕ) (bs : List ℕ)
    → length bs ≡ n
    → n ≤ 8
    → All IsByte bs
    → value bs ≡ i
    → Reads (LittleEndian.read_uint_n n) n bs i
unfolding LittleEndian.read_uint_n
read_uint_n-value n i bs hn h hb hv = (hn, hb, loop)
  where
    loop : (rest : List ℕ) → LittleEndian.read_uint_n_loop n 0 0 (bs ++ rest) ≡ ok (i, rest)
    loop rest =
        rw (← hn, ← hv)
          (read_loop-value bs rest 0 0 hb (omega arith) (omega arith)
            ∙ ap (λ (t : ℕ). ok (t, rest)) (omega arith))

-- The `n` bytes of `i` from bit `k` on.
abbrev low_bytes : ℕ → ℕ → ℕ → List ℕ
low_bytes zero k i = []
low_bytes (suc n) k i = i / 2 ^ k % 256 ∷ low_bytes n (k + 8) i

-- In little-endian order reading undoes writing at each width, and the narrow writes do not panic
-- on numbers of their width.
pub little_endian-IsCodec : IsCodec LittleEndian.little_endian
unfolding LittleEndian.little_endian
little_endian-IsCodec = record {
  uint64 = λ i h. (refl, omega arith, λ rest. ground arith);
  uint32 = λ i h. (refl, omega arith, λ rest. ground arith);
  uint16 = λ i h. (refl, omega arith, λ rest. ground arith);
  one_byte =
      λ i h. (read_uint_n-value 1 i (i ∷ []) refl (omega arith) (omega arith) (omega arith)).2;
  no_byte = λ rest. refl;
  n_uint16 =
      λ i h. read_uint_n-value 2 i (low_bytes 2 0 i) refl (omega arith) (omega arith) (omega arith);
  n_uint32 =
      λ i h. read_uint_n-value 4 i (low_bytes 4 0 i) refl (omega arith) (omega arith) (omega arith);
  n_uint64 =
      λ i h. read_uint_n-value 8 i (low_bytes 8 0 i) refl (omega arith) (omega arith) (omega arith);
  n_uint24 = λ i h. (
    low_bytes 3 0 i,
    ground arith,
    read_uint_n-value 3 i (low_bytes 3 0 i) refl (omega arith) (omega arith) (omega arith),
  );
  n_uint40 = λ i h. (
    low_bytes 5 0 i,
    ground arith,
    read_uint_n-value 5 i (low_bytes 5 0 i) refl (omega arith) (omega arith) (omega arith),
  );
  n_uint48 = λ i h. (
    low_bytes 6 0 i,
    ground arith,
    read_uint_n-value 6 i (low_bytes 6 0 i) refl (omega arith) (omega arith) (omega arith),
  );
  n_uint56 = λ i h. (
    low_bytes 7 0 i,
    ground arith,
    read_uint_n-value 7 i (low_bytes 7 0 i) refl (omega arith) (omega arith) (omega arith),
  );
}
