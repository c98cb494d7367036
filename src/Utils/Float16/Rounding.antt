-- ===== src/Utils/Float16/Rounding.antt =====
-- src/sa-ecf/internal/utils/float16.go: what is lost by writing a number, and that nothing is lost
-- by writing again what was read.
use ivsh.Common.{
  ℕ, zero, suc, ◌+◌, ◌-◌, ◌*◌, ◌/◌, ◌%◌, ◌^◌, ◌≤◌, ◌<◌, ◌≡◌, refl, ap, Bool, true, false, ◌&&◌,
  arith, List, ◌++◌, ◌==◌, ==_iff, ltb, if◌then◌else◌, Bool-cases, inl, inr,
}
use ivsh.Common.Result.{ok}
use ivsh.Utils.ByteOrder.{ByteOrder, IsCodec}
use ivsh.Utils.Float16.{max_value, decode, encode, shift_loop, read_ufloat16, write_ufloat16}

-- The loop divides by a power of two so that the highest bit comes to stand in position 11.
shift_loop_lem :
    (value : ℕ)
    → 2 ^ 12 ≤ value
    → value < 2 ^ 42
    → let (e, v) = shift_loop 5 (0, value) in
      (2 ^ 11 ≤ v)
      × (v < 2 ^ 12)
      × (1 ≤ e)
      × (e ≤ 30)
      × (v * 2 ^ e ≤ value)
      × (value < v * 2 ^ e + 2 ^ e)
unfolding shift_loop
shift_loop_lem value lo hi = ground arith

-- A normalised word: the mantissa `v` with its hidden bit, and the exponent `e`.
decode-word :
    (e v : ℕ)
    → 1 ≤ e
    → 2 ^ 11 ≤ v
    → v < 2 ^ 12
    → v * 2 ^ e < 2 ^ 64
    → decode (v + e * 2048) ≡ v * 2 ^ e
unfolding decode
decode-word e v he lo hi fits =
    let exponent : (v + e * 2048) / 2 ^ 11 - 1 ≡ e = omega arith in
    let mantissa : v + e * 2048 - e * 2 ^ 11 ≡ v = omega arith in
    let normal : ltb (v + e * 2048) (2 ^ 12) ≡ false = ground arith in
    let whole : v * 2 ^ e % 2 ^ 64 ≡ v * 2 ^ e = omega arith in
    rw (normal, exponent, mantissa, whole)

encode-word :
    (value e v : ℕ)
    → 2 ^ 12 ≤ value
    → value < max_value
    → shift_loop 5 (0, value) ≡ (e, v)
    → v < 2 ^ 12
    → e ≤ 30
    → encode value ≡ v + e * 2048
unfolding encode
encode-word value e v lo hi found hv he = ground arith

hidden_bit : (v w : ℕ) → 2 ^ 11 ≤ v → 2048 * w ≤ v * w
hidden_bit v w h = grind arith

-- A number below the maximum loses less than a 2048th of what is left of it.
decode-encode_lem :
    (value : ℕ)
    → value < max_value
    → (decode (encode value) ≤ value) × (2048 * value ≤ 2049 * decode (encode value))
decode-encode_lem value hi = elim (Bool-cases (ltb value (2 ^ 12))) [
  | inl small ↦ unfold encode decode in ground arith
  | inr large ↦
      let lo : 2 ^ 12 ≤ value = ground arith in
      let (lo', hi', e_pos, e_le, below, above) = shift_loop_lem value lo (omega arith) in
      rw (encode-word value _ _ lo hi refl hi' e_le, decode-word _ _ e_pos lo' hi' (omega arith))
        (below, omega (arith, hidden_bit _ (2 ^ (shift_loop 5 (0, value)).0) lo'))
]

-- Go's clamp: what is too large is written as the largest number.
decode-encode_max : (value : ℕ) → max_value ≤ value → decode (encode value) ≡ max_value
unfolding decode encode
decode-encode_max value h = ground arith

-- A test holds of all numbers below a bound.
tabulate : (ℕ → Bool) → ℕ → Bool
tabulate test zero = true
tabulate test (suc bound) = tabulate test bound && test bound

tabulate→eq :
    (test : ℕ → Bool) (bound k : ℕ) → k < bound → tabulate test bound ≡ true → test k ≡ true
unfolding tabulate
tabulate→eq test zero k lt table = absurd (omega arith)
tabulate→eq test (suc bound) k lt table = ground (arith, tabulate→eq test bound k)

-- The normalised words by exponent and mantissa.
abbrev survives : ℕ → ℕ → Bool
survives e m = encode (decode ((e + 1) * 2048 + m)) == (e + 1) * 2048 + m

normalised_words : tabulate (λ e. tabulate (survives e) 2048) 31 ≡ true
unfolding tabulate encode decode
normalised_words = refl

encode-decode : (x : ℕ) → x < 2 ^ 16 → encode (decode x) ≡ x
encode-decode x h = elim (Bool-cases (ltb x 2048)) [
  | inl small ↦ unfold encode decode in ground arith
  | inr large ↦
      let e = x / 2048 - 1 in
      let m = x % 2048 in
      let row =
        tabulate→eq (λ k. tabulate (survives k) 2048) 31 e (ground arith) normalised_words in
      let cell = (==_iff _ _).0 (tabulate→eq (survives e) 2048 m (omega arith) row) in
      let word : (e + 1) * 2048 + m ≡ x = ground arith in rw word at cell
]

encode-lt : (value : ℕ) → encode value < 2 ^ 16
unfolding encode
encode-lt value = ground arith

module _ {o : ByteOrder} (codec : IsCodec o) where
  read_ufloat16-write_below :
      (value : ℕ)
      → value < max_value
      → (d : ℕ) × (d ≤ value)
        × (2048 * value ≤ 2049 * d)
        × ((rest : List ℕ) → read_ufloat16 o (write_ufloat16 o value ++ rest) ≡ ok (d, rest))
  unfolding read_ufloat16 write_ufloat16
  read_ufloat16-write_below value h =
      let back = (codec.uint16 (encode value) (encode-lt value)).2 in
      let (le, close) = decode-encode_lem value h in
      (decode (encode value), le, close, λ rest. rw (back rest))

  read_ufloat16-write_max :
      (value : ℕ) (rest : List ℕ)
      → max_value ≤ value
      → read_ufloat16 o (write_ufloat16 o value ++ rest) ≡ ok (max_value, rest)
  unfolding read_ufloat16 write_ufloat16
  read_ufloat16-write_max value rest h =
      rw ((codec.uint16 (encode value) (encode-lt value)).2 rest)
        (ap (λ (t : ℕ). ok (t, rest)) (decode-encode_max value h))

  -- A written number, or the maximum if it is larger, is read back rounded down, by at most a 2048th of
  -- the result, whatever follows it.
  pub read_ufloat16-write_ufloat16 :
      (value : ℕ)
      → let clamped = if ltb value max_value then value else max_value in
        (d : ℕ) × (d ≤ clamped)
        × (2048 * clamped ≤ 2049 * d)
        × ((rest : List ℕ) → read_ufloat16 o (write_ufloat16 o value ++ rest) ≡ ok (d, rest))
  read_ufloat16-write_ufloat16 value = elim (Bool-cases (ltb value max_value)) [
    | inl below ↦ rw below (read_ufloat16-write_below value (ground (arith, below)))
    | inr above ↦ rw above (
      max_value,
      omega arith,
      omega arith,
      λ rest. read_ufloat16-write_max value rest (ground (arith, above)),
    )
  ]

  -- Each of the 2 ^ 16 words can be read, and the number read is written as the same word.
  pub write_ufloat16-read_ufloat16 :
      (x : ℕ) (rest : List ℕ)
      → x < 2 ^ 16
      → (value : ℕ) × (read_ufloat16 o (o.write_uint16 x ++ rest) ≡ ok (value, rest))
        × (write_ufloat16 o value ≡ o.write_uint16 x)
  unfolding read_ufloat16 write_ufloat16
  write_ufloat16-read_ufloat16 x rest h =
      (decode x, rw ((codec.uint16 x h).2 rest), ap o.write_uint16 (encode-decode x h))
