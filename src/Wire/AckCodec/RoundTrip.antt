-- ===== src/Wire/AckCodec/RoundTrip.antt =====
-- src/sa-ecf/internal/wire/ack_frame.go: ACK frames are parsed as they were written.
use ivsh.Common.{
  ℕ, ◌-◌, ◌*◌, ◌/◌, ◌%◌, ◌^◌, ◌≤◌, ◌<◌, ◌≡◌, refl, arith, List, [], ◌∷◌, ◌++◌, true, not, Option,
  if◌then◌else◌, ltb,
}
use mathlib.Core.List.{append_assoc}
use ivsh.Common.Result.{ok}
use ivsh.Protocol.PacketNumber.{packet_number_length}
use ivsh.Protocol.PacketNumber.Infer.{packet_number_length_fits}
use ivsh.Utils.ByteOrder.{ByteOrder, IsCodec}
use ivsh.Utils.Reader.{read_byte}
use ivsh.Utils.Float16.{max_value, write_ufloat16}
use ivsh.Utils.Float16.Rounding.{read_ufloat16-write_ufloat16}
use ivsh.Wire.AckFrame.{AckFrame, AckRange, has_missing_ranges, is_empty, validate_ack_ranges}
use ivsh.Wire.AckBlocks.{lowest_of, missing_delta_len, num_writable_nack_ranges}
use ivsh.Wire.AckBlocks.Numbers.{write_number-RoundTrip}
use ivsh.Wire.AckBlocks.Sound.{
  IsSound, written_part, written_part-valid, num_writable-range, sound-RoundTrip,
}
use ivsh.Wire.AckCodec.{
  count_byte, encode_ack_frame, has_path_id, parse_ack_frame, parse_timestamps, received_ack_frame,
  ack_type_byte, with_delay, write_ack_frame,
}
use ivsh.Wire.AckCodec.TypeByte.{type_byte_lem}

-- What is read of a frame: as many of its ranges as fit, and the delay `delay` in microseconds.
abbrev pub read_of : AckFrame → ℕ → AckFrame
read_of f delay =
    let ranges = written_part f.ack_ranges in
    received_ack_frame f.path_id f.largest_acked (lowest_of f.lowest_acked ranges) ranges delay

-- The path ID, where there is one.
read_path :
    (f : AckFrame) (rest : List ℕ)
    → (if has_path_id f
        then read_byte ((if has_path_id f then f.path_id ∷ [] else []) ++ rest)
        else ok (0, (if has_path_id f then f.path_id ∷ [] else []) ++ rest))
      ≡ ok (f.path_id, rest)
read_path f rest = ground arith

-- The number of blocks, where there are ranges.
pub read_count :
    (ranges : List AckRange) (rest : List ℕ)
    → num_writable_nack_ranges ranges ≤ 0xff
    → let missing = not (is_empty ranges) in
      let n = num_writable_nack_ranges ranges in
      (if missing
        then read_byte (count_byte missing n ++ rest)
        else ok (0, count_byte missing n ++ rest))
      ≡ ok (n - 1, rest)
unfolding num_writable_nack_ranges
read_count [] rest h = refl
read_count (r ∷ rs) rest h =
    let byte : (num_writable_nack_ranges (r ∷ rs) - 1) % 2 ^ 8
        ≡ num_writable_nack_ranges (r ∷ rs) - 1 =
      omega arith in
    rw byte refl

-- No timestamps.
no_timestamps : (o : ByteOrder) (rest : List ℕ) → parse_timestamps o (0 ∷ rest) ≡ ok (tt, rest)
unfolding parse_timestamps
no_timestamps o rest = refl

module _ {o : ByteOrder} (codec : IsCodec o) where
  parse_ack_frame-encode :
      (f : AckFrame)
      → f.path_id < 2 ^ 8
      → IsSound f.largest_acked f.lowest_acked f.ack_ranges
      → let us = f.delay_time / 1000 in
        let clamped = if ltb us max_value then us else max_value in
        (bs : List ℕ) × (d : ℕ) × (encode_ack_frame o f ≡ ok bs)
        × (d ≤ clamped)
        × (2048 * clamped ≤ 2049 * d)
        × ((rest : List ℕ) → parse_ack_frame o (bs ++ rest) ≡ ok (read_of f d, rest))
  unfolding encode_ack_frame parse_ack_frame validate_ack_ranges has_missing_ranges
  parse_ack_frame-encode f path h =
      let l = packet_number_length f.largest_acked in
      let m = missing_delta_len f.largest_acked f.lowest_acked f.ack_ranges in
      let (fits, least) = packet_number_length_fits f.largest_acked h.bound in
      let (ls, wrote_l, reads_l) = write_number-RoundTrip codec true l f.largest_acked fits in
      let (rs, wrote_r, reads_r) =
        sound-RoundTrip codec true f.largest_acked f.lowest_acked f.ack_ranges h in
      let (d, le, close, reads_d) = read_ufloat16-write_ufloat16 codec (f.delay_time / 1000) in
      let missing = not (is_empty f.ack_ranges) in
      let n = num_writable_nack_ranges f.ack_ranges in
      let (few, some_blocks) = num_writable-range f.largest_acked f.lowest_acked f.ack_ranges h in
      let (missing_back, path_back, l_back, m_back) = type_byte_lem missing (has_path_id f) l m in
      let valid : validate_ack_ranges (read_of f d) ≡ true =
        written_part-valid f.largest_acked f.lowest_acked f.ack_ranges h in
      (
        ack_type_byte missing (has_path_id f) l m
            ∷ ((if has_path_id f then f.path_id ∷ [] else [])
                ++ (ls
                    ++ (write_ufloat16 o (f.delay_time / 1000)
                        ++ (count_byte missing n ++ (rs ++ (0 ∷ [])))))),
        d,
        ground (arith, wrote_l, wrote_r, few),
        le,
        close,
        λ rest. simp append_assoc (
            rw
              (
                path_back,
                read_path f _,
                l_back,
                reads_l _,
                reads_d _,
                missing_back,
                read_count f.ack_ranges _ few,
                some_blocks,
                m_back,
                reads_r _,
                valid,
                no_timestamps o rest,
              )
              refl),
      )

  -- An ACK frame with sound ranges is written, and parsed, whatever follows it, as the same path, the
  -- same largest number, as many ranges as fit and the lowest number of these, with the delay since the
  -- frame's packet, in microseconds, or the maximum if it is larger, rounded down by at most a 2048th of
  -- the result.
  pub parse_ack_frame-write :
      (since : Option ℕ → ℕ) (f : AckFrame)
      → f.path_id < 2 ^ 8
      → IsSound f.largest_acked f.lowest_acked f.ack_ranges
      → let us = since f.packet_received_time / 1000 in
        let clamped = if ltb us max_value then us else max_value in
        (bs : List ℕ) × (d : ℕ) × (write_ack_frame o since f ≡ ok bs)
        × (d ≤ clamped)
        × (2048 * clamped ≤ 2049 * d)
        × ((rest : List ℕ) → parse_ack_frame o (bs ++ rest) ≡ ok (read_of f d, rest))
  unfolding write_ack_frame with_delay
  parse_ack_frame-write since f path h = parse_ack_frame-encode (with_delay since f) path h
