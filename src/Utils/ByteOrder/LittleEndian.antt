-- ===== src/Utils/ByteOrder/LittleEndian.antt =====
-- src/sa-ecf/internal/utils/byteorder_little_endian.go. Bytes are below 256, so that the sums of
-- shifted bytes do not wrap.
pub mod Codec
use Prim.Native.Nat.{bit_xor}
use ivsh.Common.{ℕ, zero, suc, ◌+◌, ◌*◌, ◌/◌, ◌%◌, ◌^◌, List, [], ◌∷◌, ltb, if◌then◌else◌}
use ivsh.Common.Result.{ok, err, ◌>>=◌}
use ivsh.Utils.Reader.{Parse, eof, read_byte}
use ivsh.Utils.ByteOrder.Interface.{Write, panic, ByteOrder}

-- The loop of ReadUintN with the rounds left and the index `i`; `i * 8` is a uint8.
read_uint_n_loop : ℕ → ℕ → ℕ → List ℕ → Parse ℕ
read_uint_n_loop zero i res r = ok (res, r)
read_uint_n_loop (suc n) i res [] = err eof
read_uint_n_loop (suc n) i res (b ∷ r) =
    read_uint_n_loop n (i + 1) (bit_xor res (b * 2 ^ (i * 8 % 256) % 2 ^ 64)) r

unfoldable pub read_uint_n : ℕ → List ℕ → Parse ℕ
unfolding read_uint_n_loop
read_uint_n n r = read_uint_n_loop n 0 0 r

unfoldable pub read_uint64 : List ℕ → Parse ℕ
read_uint64 r = do
  (b1, r) ← read_byte r
  (b2, r) ← read_byte r
  (b3, r) ← read_byte r
  (b4, r) ← read_byte r
  (b5, r) ← read_byte r
  (b6, r) ← read_byte r
  (b7, r) ← read_byte r
  (b8, r) ← read_byte r
  ok (
    b1
        + b2 * 2 ^ 8
        + b3 * 2 ^ 16
        + b4 * 2 ^ 24
        + b5 * 2 ^ 32
        + b6 * 2 ^ 40
        + b7 * 2 ^ 48
        + b8 * 2 ^ 56,
    r,
  )

unfoldable pub read_uint32 : List ℕ → Parse ℕ
read_uint32 r = do
  (b1, r) ← read_byte r
  (b2, r) ← read_byte r
  (b3, r) ← read_byte r
  (b4, r) ← read_byte r
  ok (b1 + b2 * 2 ^ 8 + b3 * 2 ^ 16 + b4 * 2 ^ 24, r)

unfoldable pub read_uint16 : List ℕ → Parse ℕ
read_uint16 r = do (b1, r) ← read_byte r; (b2, r) ← read_byte r; ok (b1 + b2 * 2 ^ 8, r)

-- `uint8(i >> k)`
abbrev byte_at : ℕ → ℕ → ℕ
byte_at i k = i / 2 ^ k % 256

unfoldable pub write_uint64 : ℕ → List ℕ
write_uint64 i =
    byte_at i 0
    ∷ byte_at i 8
    ∷ byte_at i 16
    ∷ byte_at i 24
    ∷ byte_at i 32
    ∷ byte_at i 40
    ∷ byte_at i 48
    ∷ byte_at i 56
    ∷ []

unfoldable pub write_uint56 : ℕ → Write
write_uint56 i =
    if ltb i (2 ^ 56)
    then ok (
        byte_at i 0
        ∷ byte_at i 8
        ∷ byte_at i 16
        ∷ byte_at i 24
        ∷ byte_at i 32
        ∷ byte_at i 40
        ∷ byte_at i 48
        ∷ [])
    else err panic

unfoldable pub write_uint48 : ℕ → Write
write_uint48 i =
    if ltb i (2 ^ 48)
    then ok
        (byte_at i 0 ∷ byte_at i 8 ∷ byte_at i 16 ∷ byte_at i 24 ∷ byte_at i 32 ∷ byte_at i 40 ∷ [])
    else err panic

unfoldable pub write_uint40 : ℕ → Write
write_uint40 i =
    if ltb i (2 ^ 40)
    then ok (byte_at i 0 ∷ byte_at i 8 ∷ byte_at i 16 ∷ byte_at i 24 ∷ byte_at i 32 ∷ [])
    else err panic

unfoldable pub write_uint32 : ℕ → List ℕ
write_uint32 i = byte_at i 0 ∷ byte_at i 8 ∷ byte_at i 16 ∷ byte_at i 24 ∷ []

unfoldable pub write_uint24 : ℕ → Write
write_uint24 i =
    if ltb i (2 ^ 24) then ok (byte_at i 0 ∷ byte_at i 8 ∷ byte_at i 16 ∷ []) else err panic

unfoldable pub write_uint16 : ℕ → List ℕ
write_uint16 i = byte_at i 0 ∷ byte_at i 8 ∷ []

unfoldable pub little_endian : ByteOrder
unfolding read_uint_n read_uint64 read_uint32 read_uint16 write_uint64 write_uint56 write_uint48
    write_uint40 write_uint32 write_uint24 write_uint16
little_endian = record {
  read_uint_n = read_uint_n;
  read_uint64 = read_uint64;
  read_uint32 = read_uint32;
  read_uint16 = read_uint16;
  write_uint64 = write_uint64;
  write_uint56 = write_uint56;
  write_uint48 = write_uint48;
  write_uint40 = write_uint40;
  write_uint32 = write_uint32;
  write_uint24 = write_uint24;
  write_uint16 = write_uint16;
}
