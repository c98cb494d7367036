-- ===== src/Wire/ClosePath/RoundTrip.antt =====
-- src/sa-ecf/internal/wire/close_path_frame.go: CLOSE_PATH frames are parsed as they were written.
use Prim.Native.Nat.{bit_and}
use ivsh.Common.{◌≡◌, refl, arith, ◌∷◌, ◌++◌, Bool, false, not, ◌==◌}
use mathlib.Core.List.{append_assoc}
use ivsh.Protocol.PacketNumber.{PacketNumberLen, bytes_of, packet_number_length}
use ivsh.Protocol.PacketNumber.Infer.{packet_number_length_fits}
use ivsh.Utils.ByteOrder.{ByteOrder, IsCodec}
use ivsh.Wire.AckFrame.{ClosePathFrame, is_empty, close_path_validate_ack_ranges}
use ivsh.Wire.Control.RoundTrip.{RoundTrip}
use ivsh.Wire.AckBlocks.{lowest_of, missing_delta_len, num_writable_nack_ranges}
use ivsh.Wire.AckBlocks.Numbers.{write_number-RoundTrip}
use ivsh.Wire.AckBlocks.Sound.{
  IsSound, written_part, written_part-valid, num_writable-range, sound-RoundTrip,
}
use ivsh.Wire.AckCodec.{count_byte, largest_acked_len, missing_sequence_number_delta_len}
use ivsh.Wire.AckCodec.RoundTrip.{read_count}
use ivsh.Wire.ClosePath.{flags_of, parse_close_path, parsed_close_path, write_close_path}

flags_lem :
    (missing : Bool) (l m : PacketNumberLen)
    → let b = flags_of missing l m in
      ((bit_and b 0x10 == 0x10) ≡ missing)
      × (largest_acked_len b ≡ bytes_of l)
      × (missing_sequence_number_delta_len b ≡ bytes_of m)
unfolding flags_of
flags_lem missing l m = ground arith

-- A CLOSE_PATH frame with sound ranges is parsed with the same path and largest number, as many ranges
-- as fit, and the lowest number of these.
pub parse_close_path-write :
    {o : ByteOrder}
    → (codec : IsCodec o) (f : ClosePathFrame) → IsSound f.largest_acked f.lowest_acked f.ack_ranges
    → let ranges = written_part f.ack_ranges in
      RoundTrip
        (write_close_path o f)
        (parse_close_path o)
        (parsed_close_path f.path_id f.largest_acked (lowest_of f.lowest_acked ranges) ranges)
unfolding write_close_path parse_close_path close_path_validate_ack_ranges
parse_close_path-write {o} codec f h =
    let l = packet_number_length f.largest_acked in
    let m = missing_delta_len f.largest_acked f.lowest_acked f.ack_ranges in
    let (fits, least) = packet_number_length_fits f.largest_acked h.bound in
    let (ls, wrote_l, reads_l) = write_number-RoundTrip codec false l f.largest_acked fits in
    let (rs, wrote_r, reads_r) =
      sound-RoundTrip codec false f.largest_acked f.lowest_acked f.ack_ranges h in
    let missing = not (is_empty f.ack_ranges) in
    let n = num_writable_nack_ranges f.ack_ranges in
    let (few, some_blocks) = num_writable-range f.largest_acked f.lowest_acked f.ack_ranges h in
    let (missing_back, l_back, m_back) = flags_lem missing l m in
    let valid = written_part-valid f.largest_acked f.lowest_acked f.ack_ranges h in
    (
      0x11 ∷ (f.path_id ∷ (flags_of missing l m ∷ (count_byte missing n ++ (ls ++ rs)))),
      ground (arith, wrote_l, wrote_r, few),
      λ rest. simp append_assoc (
          rw
            (
              missing_back,
              read_count f.ack_ranges _ few,
              some_blocks,
              l_back,
              reads_l _,
              m_back,
              reads_r _,
              valid,
            )
            refl),
    )
