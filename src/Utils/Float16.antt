-- ===== src/Utils/Float16.antt =====
-- src/sa-ecf/internal/utils/float16.go: unsigned 16-bit floating point numbers with a 5-bit
-- exponent and an 11-bit mantissa.
pub mod Rounding
use ivsh.Common.{ℕ, zero, suc, ◌+◌, ◌-◌, ◌*◌, ◌/◌, ◌%◌, ◌^◌, List, ltb, leb, if◌then◌else◌}
use ivsh.Common.Result.{ok, ◌>>=◌}
use ivsh.Utils.Reader.{Parse}
use ivsh.Utils.ByteOrder.{ByteOrder}

abbrev pub mantissa_bits : ℕ
mantissa_bits = 11

abbrev pub mantissa_effective_bits : ℕ
mantissa_effective_bits = 12

abbrev pub max_value : ℕ
max_value = (2 ^ 12 - 1) * 2 ^ 30

-- What `readUfloat16` computes from the uint16 `val` that it read.
decode : ℕ → ℕ
decode val =
    if ltb val (2 ^ mantissa_effective_bits)
    then val
    else let exponent = val / 2 ^ mantissa_bits - 1 in
      (val - exponent * 2 ^ mantissa_bits) * 2 ^ exponent % 2 ^ 64

pub read_ufloat16 : ByteOrder → List ℕ → Parse ℕ
unfolding decode
read_ufloat16 o r = do (val, r) ← o.read_uint16 r; ok (decode val, r)

-- One round of the binary search for the highest bit.
shift_round : ℕ → ℕ × ℕ → ℕ × ℕ
shift_round offset (exponent, value) =
    if leb (2 ^ (mantissa_bits + offset)) value
    then (exponent + offset, value / 2 ^ offset)
    else (exponent, value)

-- `for offset := uint16(16); offset > 0; offset /= 2`: with `k` rounds to go the offset is
-- 2 ^ (k - 1), and there are five of them.
shift_loop : ℕ → ℕ × ℕ → ℕ × ℕ
unfolding shift_round
shift_loop zero s = s
shift_loop (suc k) s = shift_loop k (shift_round (2 ^ k) s)

-- What `writeUfloat16` writes as a uint16.
encode : ℕ → ℕ
unfolding shift_loop
encode value =
    if ltb value (2 ^ mantissa_effective_bits)
    then value % 2 ^ 16
    else if leb max_value value
    then 2 ^ 16 - 1
    else let (exponent, v) = shift_loop 5 (0, value) in
      (v % 2 ^ 16 + exponent * 2 ^ mantissa_bits % 2 ^ 16) % 2 ^ 16

pub write_ufloat16 : ByteOrder → ℕ → List ℕ
unfolding encode
write_ufloat16 o value = o.write_uint16 (encode value)
