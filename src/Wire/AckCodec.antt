-- ===== src/Wire/AckCodec.antt =====
-- src/sa-ecf/internal/wire/ack_frame.go: the encoding of ACK frames.
pub mod TypeByte
pub mod RoundTrip
use Prim.Native.Nat.{bit_and, bit_or, bit_xor}
use ivsh.Common.{
  ℕ, zero, suc, ◌+◌, ◌-◌, ◌*◌, ◌/◌, ◌%◌, ◌^◌, List, [], ◌∷◌, ◌++◌, Bool, true, false, not, ◌&&◌,
  Option, none, ltb, ◌==◌, if◌then◌else◌, add64,
}
use ivsh.Common.Result.{ok, err, ◌>>=◌}
use ivsh.Protocol.PacketNumber.{
  PacketNumberLen, len1, len2, len4, len6, bytes_of, packet_number_length,
}
use ivsh.Utils.Reader.{Parse, read_byte, invalid_ack_ranges}
use ivsh.Utils.ByteOrder.{ByteOrder, Write, panic}
use ivsh.Utils.Float16.{read_ufloat16, write_ufloat16}
use ivsh.Wire.AckFrame.{AckFrame, AckRange, has_missing_ranges, validate_ack_ranges, is_empty}
use ivsh.Wire.AckBlocks.{
  missing_delta_len, num_writable_nack_ranges, parse_ranges, write_number, write_ranges,
}

-- The two bits of a length, which are 0 for one byte.
abbrev pub bits_of : PacketNumberLen → ℕ
bits_of len1 = 0
bits_of len2 = 2 / 2
bits_of len4 = 4 / 2
bits_of len6 = 6 / 2

-- A length from the two bits of a byte.
abbrev pub len_of_bits : ℕ → ℕ
len_of_bits bits = if 2 * bits == 0 then 1 else 2 * bits

unfoldable pub ack_type_byte : Bool → Bool → PacketNumberLen → PacketNumberLen → ℕ
ack_type_byte missing path largest_len missing_len =
    let lens = bit_xor (bit_xor 0x40 (bits_of largest_len * 2 ^ 2)) (bits_of missing_len) in
    let ranges = if missing then bit_or lens 0x20 else lens in
    if path then bit_or ranges 0x10 else ranges

abbrev pub largest_acked_len : ℕ → ℕ
largest_acked_len byte = len_of_bits (bit_and byte 0x0c / 2 ^ 2)

abbrev pub missing_sequence_number_delta_len : ℕ → ℕ
missing_sequence_number_delta_len byte = len_of_bits (bit_and byte 0x03)

abbrev pub has_path_id : AckFrame → Bool
has_path_id f = not (f.path_id == 0)

-- `f.DelayTime = time.Since(f.PacketReceivedTime)`, where `since` is what `time.Since` returns.
unfoldable pub with_delay : (Option ℕ → ℕ) → AckFrame → AckFrame
with_delay since f = record f { delay_time = since f.packet_received_time }

-- The number of ranges, of which the first is not counted.
abbrev pub count_byte : Bool → ℕ → List ℕ
count_byte missing num_ranges = if missing then (num_ranges - 1) % 2 ^ 8 ∷ [] else []

-- What `Write` does behind the assignment to `DelayTime`.
unfoldable pub encode_ack_frame : ByteOrder → AckFrame → Write
encode_ack_frame o f =
    let largest_len = packet_number_length f.largest_acked in
    let missing_len = missing_delta_len f.largest_acked f.lowest_acked f.ack_ranges in
    let missing = has_missing_ranges f in
    let num_ranges = num_writable_nack_ranges f.ack_ranges in
    let path = if has_path_id f then f.path_id ∷ [] else [] in
    do
      largest ← write_number o true largest_len f.largest_acked
      if missing && ltb 0xff num_ranges then err panic else do
        ranges ← write_ranges o true missing_len f.largest_acked f.lowest_acked f.ack_ranges
        ok (
            ack_type_byte missing (has_path_id f) largest_len missing_len
            ∷ (path
                ++ (largest
                    ++ (write_ufloat16 o (f.delay_time / 1000)
                        ++ (count_byte missing num_ranges ++ (ranges ++ (0 ∷ [])))))))

-- `Write`: the frame with its new delay, and the bytes.
unfoldable pub write_ack_frame : ByteOrder → (Option ℕ → ℕ) → AckFrame → Write
unfolding encode_ack_frame with_delay
write_ack_frame o since f = encode_ack_frame o (with_delay since f)

-- The loop over the timestamps behind the first one.
abbrev pub skip_timestamps : ByteOrder → ℕ → List ℕ → Parse (Unit {0})
skip_timestamps o zero r = ok (tt, r)
skip_timestamps o (suc n) r = do
  (_, r) ← read_byte r
  (_, r) ← o.read_uint16 r
  skip_timestamps o n r

unfoldable pub parse_timestamps : ByteOrder → List ℕ → Parse (Unit {0})
parse_timestamps o r = do
  (num_timestamp, r) ← read_byte r
  if not (ltb 0 num_timestamp) then ok (tt, r) else do
    (_, r) ← read_byte r
    (_, r) ← o.read_uint32 r
    skip_timestamps o (num_timestamp - 1) r

-- The frame that the parser fills, from the delay in microseconds.
abbrev pub received_ack_frame : (path_id largest lowest : ℕ) → List AckRange → ℕ → AckFrame
received_ack_frame path_id largest lowest ranges delay = record {
  path_id = path_id;
  largest_acked = largest;
  lowest_acked = lowest;
  ack_ranges = ranges;
  packet_received_time = none;
  delay_time = delay * 1000;
}

unfoldable pub parse_ack_frame : ByteOrder → List ℕ → Parse AckFrame
parse_ack_frame o r = do
  (type_byte, r) ← read_byte r
  let missing = bit_and type_byte 0x20 == 0x20
  (path_id, r) ← if bit_and type_byte 0x10 == 0x10 then read_byte r else ok (0, r)
  (largest, r) ← o.read_uint_n (largest_acked_len type_byte) r
  (delay, r) ← read_ufloat16 o r
  (num_blocks, r) ← if missing then read_byte r else ok (0, r)
  if missing && num_blocks == 0 then err invalid_ack_ranges else do
    ((lowest, ranges), r) ←
        parse_ranges o (missing_sequence_number_delta_len type_byte) missing largest num_blocks r
    let f = received_ack_frame path_id largest lowest ranges delay
    if not (validate_ack_ranges f)
        then err invalid_ack_ranges
        else do (_, r) ← parse_timestamps o r; ok (f, r)
