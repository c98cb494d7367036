-- ===== src/Wire/StreamFrame.antt =====
-- src/sa-ecf/internal/wire/stream_frame.go: STREAM frames.
pub mod Fields
pub mod RoundTrip
pub mod Accepted
use Prim.Native.Nat.{bit_and, bit_xor}
use ivsh.Common.{
  ℕ, zero, suc, ◌+◌, ◌-◌, ◌*◌, ◌/◌, ◌%◌, ◌^◌, List, [], ◌∷◌, ◌++◌, Bool, true, false, not, ◌&&◌,
}
use ivsh.Common.{length, ltb, ◌==◌, if◌then◌else◌, add64}
use ivsh.Common.Result.{ok, err, ◌>>=◌}
use ivsh.Utils.Reader.{Parse, read_byte, read_full, invalid_stream_data, empty_stream_frame_no_fin}
use ivsh.Utils.ByteOrder.{
  ByteOrder, Write, empty_frame_without_fin, invalid_stream_id_len, invalid_offset_len,
}

pub record StreamFrame : Type 0 where
  pub stream_id : ℕ
  pub fin_bit : Bool
  pub data_len_present : Bool
  pub offset : ℕ
  pub bytes : List ℕ

abbrev pub max_packet_size : ℕ
max_packet_size = 1350

unfoldable pub data_len : StreamFrame → ℕ
data_len f = length f.bytes

-- `offsetLen := typeByte & 0x1c >> 2`, and one more unless it is 0.
abbrev offset_len_of : ℕ → ℕ
offset_len_of type_byte = let n = bit_and type_byte 0x1c / 2 ^ 2 in if n == 0 then 0 else n + 1

abbrev stream_id_len_of : ℕ → ℕ
stream_id_len_of type_byte = bit_and type_byte 0x3 + 1

-- The checks on the length that was read, the data, and the checks on the whole frame.
pub parse_data : ℕ → Bool → Bool → ℕ → ℕ → List ℕ → Parse StreamFrame
parse_data sid fin present offset len r =
    if ltb max_packet_size len then err invalid_stream_data else do
      let len' = if present then len else length r % 2 ^ 16
      (bytes, r) ← read_full len' r
      if ltb (add64 offset (length bytes)) offset
          then err invalid_stream_data
          else if not fin && (length bytes == 0)
          then err empty_stream_frame_no_fin
          else ok (
            record {
              stream_id = sid;
              fin_bit = fin;
              data_len_present = present;
              offset = offset;
              bytes = bytes;
            },
            r,
          )

unfoldable pub parse_stream_frame : ByteOrder → List ℕ → Parse StreamFrame
unfolding parse_data
parse_stream_frame o r = do
  (type_byte, r) ← read_byte r
  let fin = ltb 0 (bit_and type_byte 0x40)
  let present = ltb 0 (bit_and type_byte 0x20)
  (sid, r) ← o.read_uint_n (stream_id_len_of type_byte) r
  (offset, r) ← o.read_uint_n (offset_len_of type_byte) r
  (len, r) ← if present then o.read_uint16 r else ok (0, r)
  parse_data sid fin present offset len r

unfoldable pub stream_id_length : ℕ → ℕ
stream_id_length id =
    if ltb id (2 ^ 8) then 1 else if ltb id (2 ^ 16) then 2 else if ltb id (2 ^ 24) then 3 else 4

unfoldable pub offset_length : ℕ → ℕ
offset_length offset =
    if offset == 0
    then 0
    else if ltb offset (2 ^ 16)
    then 2
    else if ltb offset (2 ^ 24)
    then 3
    else if ltb offset (2 ^ 32)
    then 4
    else if ltb offset (2 ^ 40)
    then 5
    else if ltb offset (2 ^ 48)
    then 6
    else if ltb offset (2 ^ 56)
    then 7
    else 8

-- The conversions to narrower words cut the high bits off.
pub write_stream_id : ByteOrder → ℕ → ℕ → Write
write_stream_id o len id =
    if len == 1
    then ok (id % 2 ^ 8 ∷ [])
    else if len == 2
    then ok (o.write_uint16 (id % 2 ^ 16))
    else if len == 3
    then o.write_uint24 id
    else if len == 4
    then ok (o.write_uint32 id)
    else err invalid_stream_id_len

pub write_offset : ByteOrder → ℕ → ℕ → Write
write_offset o len offset =
    if len == 0
    then ok []
    else if len == 2
    then ok (o.write_uint16 (offset % 2 ^ 16))
    else if len == 3
    then o.write_uint24 (offset % 2 ^ 32)
    else if len == 4
    then ok (o.write_uint32 (offset % 2 ^ 32))
    else if len == 5
    then o.write_uint40 offset
    else if len == 6
    then o.write_uint48 offset
    else if len == 7
    then o.write_uint56 offset
    else if len == 8
    then ok (o.write_uint64 offset)
    else err invalid_offset_len

-- The first byte: the flags and the two lengths.
pub type_byte_of : Bool → Bool → ℕ → ℕ → ℕ
type_byte_of fin present offset_len stream_id_len =
    let flagged = if fin then bit_xor 0x80 0x40 else 0x80 in
    let sized = if present then bit_xor flagged 0x20 else flagged in
    let placed =
      if ltb 0 offset_len then bit_xor sized ((offset_len - 1) * 2 ^ 2 % 256) else sized in
    bit_xor placed (stream_id_len - 1)

unfoldable pub write_stream_frame : ByteOrder → StreamFrame → Write
unfolding write_stream_id write_offset type_byte_of
write_stream_frame o f =
    if (length f.bytes == 0) && not f.fin_bit then err empty_frame_without_fin else do
      let offset_len = offset_length f.offset
      let stream_id_len = stream_id_length f.stream_id
      ids ← write_stream_id o stream_id_len f.stream_id
      offsets ← write_offset o offset_len f.offset
      let lens = if f.data_len_present then o.write_uint16 (length f.bytes % 2 ^ 16) else []
      ok (
          type_byte_of f.fin_bit f.data_len_present offset_len stream_id_len
          ∷ (ids ++ (offsets ++ (lens ++ f.bytes))))

unfoldable pub min_length : StreamFrame → ℕ
unfolding stream_id_length offset_length
min_length f =
    1
    + stream_id_length f.stream_id
    + offset_length f.offset
    + (if f.data_len_present then 2 else 0)
