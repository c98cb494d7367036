-- ===== src/Common/Bits.antt =====
-- Facts about `bit_xor` at variables, and about masks on one byte, which are tables of 256 entries.
use Prim.Native.Nat.{ℕ, zero, suc, ◌+◌, ◌*◌, ◌/◌, ◌%◌, ◌^◌, ◌≤◌, ◌<◌}
use Prim.Native.Nat.{bit_xor, bit_xor-bitwise, digits, differ}
use mathlib.Core.Path.{◌≡◌, refl}
use native.Mathlib.Omega.{arith}
use native.Mathlib.Nat.{pow-suc}
use native.Mathlib.Numerals.{towards_suc}

abbrev xor_digits : ℕ → ℕ → ℕ → ℕ
xor_digits n a b = digits (λ c. c) differ n a b

xor_digits-zero : (n b : ℕ) → xor_digits n zero b ≡ b
xor_digits-zero zero b = refl
xor_digits-zero (suc n) b = refl

-- Any two amounts of fuel that the first number fits give the same digits.
xor_digits_fuel : (n m a b : ℕ) → a ≤ n → a ≤ m → xor_digits n a b ≡ xor_digits m a b
xor_digits_fuel n m zero b p q = cc (xor_digits-zero n b, xor_digits-zero m b)
xor_digits_fuel zero m (suc a) b p q = absurd (omega arith)
xor_digits_fuel n zero (suc a) b p q = absurd (omega arith)
xor_digits_fuel (suc n) (suc m) (suc a) b p q =
    let half = suc a / 2 in
    omega (arith, xor_digits_fuel n m half (b / 2) (omega arith) (omega arith))

pub zero-bit_xor : (b : ℕ) → bit_xor 0 b ≡ b
zero-bit_xor b = bit_xor-bitwise 0 b

differ-zero : (r : ℕ) → differ r 0 ≡ r
differ-zero zero = refl
differ-zero (suc r) = refl

bit_xor_step : (a b : ℕ) → bit_xor a b ≡ bit_xor (a / 2) (b / 2) * 2 + differ (a % 2) (b % 2)
bit_xor_step zero b = omega (arith, zero-bit_xor b, zero-bit_xor (b / 2))
bit_xor_step (suc a) b =
    let half = suc a / 2 in
    let enough = xor_digits_fuel a half half (b / 2) (omega arith) (omega arith) in
    omega (arith, enough, bit_xor-bitwise (suc a) b, bit_xor-bitwise half (b / 2))

bit_xor-zero_fuel : (n a : ℕ) → a ≤ n → bit_xor a 0 ≡ a
bit_xor-zero_fuel n zero h = refl
bit_xor-zero_fuel zero (suc a) h = absurd (omega arith)
bit_xor-zero_fuel (suc n) (suc a) h = omega (
  arith,
  bit_xor_step (suc a) 0,
  bit_xor-zero_fuel n (suc a / 2) (omega arith),
  differ-zero (suc a % 2),
)

pub bit_xor-zero : (a : ℕ) → bit_xor a 0 ≡ a
bit_xor-zero a = bit_xor-zero_fuel a a (omega arith)

-- The halves of a number that is shifted by one place more.
half_shift : (y k : ℕ) → ((y * 2 ^ suc k) / 2 ≡ y * 2 ^ k) × ((y * 2 ^ suc k) % 2 ≡ 0)
half_shift y k =
    let e : y * 2 ^ suc k ≡ 2 * (y * 2 ^ k) = rw (pow-suc) (omega arith) in
    rw e (omega arith, omega arith)

half_lt : (x k : ℕ) → x < 2 ^ suc k → x / 2 < 2 ^ k
half_lt x k h = let twice : x < 2 ^ k * 2 = rw pow-suc at h in omega arith

zero_differ : (r : ℕ) → differ 0 r ≡ r
zero_differ r = refl

-- Numbers with no digit in common add up.
pub bit_xor-shifted : (k x y : ℕ) → x < 2 ^ k → bit_xor x (y * 2 ^ k) ≡ x + y * 2 ^ k
bit_xor-shifted zero zero y h = omega (arith, zero-bit_xor (y * 1))
bit_xor-shifted zero (suc x) y h = absurd (omega arith)
bit_xor-shifted (suc k) x y h =
    let (half, low) = half_shift y k in
    let rec = bit_xor-shifted k (x / 2) y (half_lt x k h) in
    rw (bit_xor_step x (y * 2 ^ suc k), half, low, differ-zero, rec) (omega (arith, half))

pub shifted-bit_xor : (k x y : ℕ) → x < 2 ^ k → bit_xor (y * 2 ^ k) x ≡ y * 2 ^ k + x
shifted-bit_xor zero zero y h = omega (arith, bit_xor-zero (y * 1))
shifted-bit_xor zero (suc x) y h = absurd (omega arith)
shifted-bit_xor (suc k) x y h =
    let (half, low) = half_shift y k in
    let rec = shifted-bit_xor k (x / 2) y (half_lt x k h) in
    rw (bit_xor_step (y * 2 ^ suc k) x, half, low, rec) (omega (arith, half, zero_differ (x % 2)))

-- The weight of byte `i + 1` is 256 times that of byte `i`.
pub pow_byte : (i : ℕ) → 2 ^ ((i + 1) * 8) ≡ 2 ^ (i * 8) * 256
pow_byte i = let e : (i + 1) * 8 ≡ i * 8 + 8 = omega arith in rw e (simp towards_suc (omega arith))

-- A byte of a 64-bit number weighs at most 2 ^ 56.
pub pow_byte-le : (i : ℕ) → i ≤ 7 → 2 ^ (i * 8) ≤ 2 ^ 56
pow_byte-le zero h = omega arith
pow_byte-le (suc zero) h = omega arith
pow_byte-le (suc (suc zero)) h = omega arith
pow_byte-le (suc (suc (suc zero))) h = omega arith
pow_byte-le (suc (suc (suc (suc zero)))) h = omega arith
pow_byte-le (suc (suc (suc (suc (suc zero))))) h = omega arith
pow_byte-le (suc (suc (suc (suc (suc (suc zero)))))) h = omega arith
pow_byte-le (suc (suc (suc (suc (suc (suc (suc zero))))))) h = omega arith
pow_byte-le (suc (suc (suc (suc (suc (suc (suc (suc i)))))))) h = absurd (omega arith)

pub byte_weight-lt : (b w : ℕ) → b < 256 → w ≤ 2 ^ 56 → b * w < 2 ^ 64
byte_weight-lt b w hb hw = grind arith

pub below_next_byte : (res b w : ℕ) → res < w → b < 256 → res + b * w < w * 256
below_next_byte res b w hr hb = grind arith

pub byte-lt : (b w : ℕ) → b < 256 → 0 < w → b * w < w * 256
byte-lt b w hb hw = grind arith

pub pow_pos : (i : ℕ) → 0 < 2 ^ (i * 8)
pow_pos zero = omega arith
pow_pos (suc i) =
    let next : suc i * 8 ≡ (i + 1) * 8 = omega arith in
    rw (next, pow_byte i) (omega (arith, pow_pos i))
