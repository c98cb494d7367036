-- ===== src/Wire/ClosePath.antt =====
-- src/sa-ecf/internal/wire/close_path_frame.go: the encoding of CLOSE_PATH frames.
pub mod RoundTrip
use Prim.Native.Nat.{bit_and, bit_or, bit_xor}
use ivsh.Common.{
  ℕ, ◌+◌, ◌-◌, ◌*◌, ◌/◌, ◌%◌, ◌^◌, List, [], ◌∷◌, ◌++◌, Bool, true, false, not, ◌&&◌, ltb, ◌==◌,
  if◌then◌else◌,
}
use ivsh.Common.Result.{ok, err, ◌>>=◌}
use ivsh.Protocol.PacketNumber.{PacketNumberLen, packet_number_length}
use ivsh.Utils.Reader.{Parse, read_byte, invalid_ack_ranges}
use ivsh.Utils.ByteOrder.{ByteOrder, Write, panic}
use ivsh.Wire.AckFrame.{ClosePathFrame, AckRange, close_path_validate_ack_ranges, is_empty}
use ivsh.Wire.AckBlocks.{
  missing_delta_len, num_writable_nack_ranges, parse_ranges, write_number, write_ranges,
}
use ivsh.Wire.AckCodec.{bits_of, count_byte, largest_acked_len, missing_sequence_number_delta_len}

unfoldable pub flags_of : Bool → PacketNumberLen → PacketNumberLen → ℕ
flags_of missing largest_len missing_len =
    let ranges = if missing then bit_or 0x00 0x10 else 0x00 in
    bit_xor (bit_xor ranges (bits_of largest_len * 2 ^ 2)) (bits_of missing_len)

unfoldable pub write_close_path : ByteOrder → ClosePathFrame → Write
write_close_path o f =
    let largest_len = packet_number_length f.largest_acked in
    let missing_len = missing_delta_len f.largest_acked f.lowest_acked f.ack_ranges in
    let missing = not (is_empty f.ack_ranges) in
    let num_ranges = num_writable_nack_ranges f.ack_ranges in
    if missing && ltb 0xff num_ranges then err panic else do
      largest ← write_number o false largest_len f.largest_acked
      ranges ← write_ranges o false missing_len f.largest_acked f.lowest_acked f.ack_ranges
      ok (
          0x11
          ∷ (f.path_id
              ∷ (flags_of missing largest_len missing_len
                  ∷ (count_byte missing num_ranges ++ (largest ++ ranges)))))

abbrev pub parsed_close_path : (path_id largest lowest : ℕ) → List AckRange → ClosePathFrame
parsed_close_path path_id largest lowest ranges = record {
  path_id = path_id;
  largest_acked = largest;
  lowest_acked = lowest;
  ack_ranges = ranges;
}

unfoldable pub parse_close_path : ByteOrder → List ℕ → Parse ClosePathFrame
parse_close_path o r = do
  (_, r) ← read_byte r
  (path_id, r) ← read_byte r
  (flags, r) ← read_byte r
  let missing = bit_and flags 0x10 == 0x10
  (num_blocks, r) ← if missing then read_byte r else ok (0, r)
  if missing && num_blocks == 0 then err invalid_ack_ranges else do
    (largest, r) ← o.read_uint_n (largest_acked_len flags) r
    ((lowest, ranges), r) ←
        parse_ranges o (missing_sequence_number_delta_len flags) missing largest num_blocks r
    let f = parsed_close_path path_id largest lowest ranges
    if not (close_path_validate_ack_ranges f) then err invalid_ack_ranges else ok (f, r)
