-- ===== src/Wire/AckTests.antt =====
-- src/sa-ecf/internal/wire: an ACK and a CLOSE_PATH frame with a gap of 569 numbers, which takes three
-- blocks.
use ivsh.Common.{
  ℕ, ◌-◌, ◌*◌, ◌^◌, ◌≤◌, ◌≡◌, refl, arith, List, [], ◌∷◌, ◌++◌, Option, none, some, true,
}
use ivsh.Common.Result.{ok, err}
use ivsh.Protocol.PacketNumber.{packet_number_length}
use ivsh.Utils.ByteOrder.{inconsistent_ack_ranges}
use ivsh.Utils.ByteOrder.BigEndian.{big_endian}
use ivsh.Utils.ByteOrder.BigEndian.Codec.{big_endian-IsCodec}
use ivsh.Wire.AckFrame.{AckRange, AckFrame, ClosePathFrame, close_path_validate_ack_ranges}
use ivsh.Wire.Control.RoundTrip.{RoundTrip}
use ivsh.Wire.AckBlocks.{
  missing_delta_len, num_writable_nack_ranges, parse_ranges, write_number, write_ranges,
}
use ivsh.Wire.AckBlocks.Sound.{IsSound}
use ivsh.Wire.AckBlocks.LongGap.{write_ranges-long_gap}
use ivsh.Wire.AckCodec.{parse_ack_frame, write_ack_frame}
use ivsh.Wire.AckCodec.RoundTrip.{parse_ack_frame-write, read_of}
use ivsh.Wire.ClosePath.{flags_of, parse_close_path, write_close_path}
use ivsh.Wire.ClosePath.RoundTrip.{parse_close_path-write}

abbrev range : ℕ → ℕ → AckRange
range first last = record { first = first; last = last }

abbrev two_ranges : List AckRange
two_ranges = range 600 700 ∷ range 20 30 ∷ []

abbrev ack : AckFrame
ack = record {
  path_id = 2;
  largest_acked = 700;
  lowest_acked = 20;
  ack_ranges = two_ranges;
  packet_received_time = some 5_000_000;
  delay_time = 0;
}

abbrev closing : ClosePathFrame
closing = record { path_id = 2; largest_acked = 700; lowest_acked = 20; ack_ranges = two_ranges }

two_ranges-IsSound : IsSound 700 20 two_ranges
two_ranges-IsSound = record {
  bound = omega arith;
  bounds = omega arith;
  positive = omega arith;
  ordered = omega arith;
  valid = refl;
  lowest_last = refl;
  room = omega arith;
}

-- Two blocks of 255 numbers and one of 59.
abbrev closing_bytes : List ℕ
closing_bytes = 0x11 ∷ 2 ∷ 0x14 ∷ 3 ∷ 0x02 ∷ 0xbc ∷ 101 ∷ 255 ∷ 0 ∷ 255 ∷ 0 ∷ 59 ∷ 11 ∷ []

write_closing : write_close_path big_endian closing ≡ ok closing_bytes
unfolding write_close_path write_number write_ranges num_writable_nack_ranges missing_delta_len
    packet_number_length flags_of big_endian
write_closing = refl

parse_closing : parse_close_path big_endian closing_bytes ≡ ok (closing, [])
unfolding parse_close_path parse_ranges close_path_validate_ack_ranges big_endian
parse_closing = refl

-- The frame is written 1.5 ms after its packet was received.
abbrev time_since : Option ℕ → ℕ
time_since none = 2 ^ 63 - 1
time_since (some t) = 6_500_000 - t

parse_ack_frame-write_example :
    (bs : List ℕ) × (d : ℕ) × (write_ack_frame big_endian time_since ack ≡ ok bs)
    × (d ≤ 1500)
    × (2048 * 1500 ≤ 2049 * d)
    × ((rest : List ℕ) → parse_ack_frame big_endian (bs ++ rest) ≡ ok (read_of ack d, rest))
parse_ack_frame-write_example =
    parse_ack_frame-write big_endian-IsCodec time_since ack (omega arith) two_ranges-IsSound

parse_close_path-write_example :
    RoundTrip (write_close_path big_endian closing) (parse_close_path big_endian) closing
parse_close_path-write_example =
    parse_close_path-write big_endian-IsCodec closing two_ranges-IsSound

write_ranges-long_gap_example :
    write_ranges big_endian true
      (missing_delta_len 70000 5 (range 70000 70000 ∷ range 5 6 ∷ []))
      70000
      5
      (range 70000 70000 ∷ range 5 6 ∷ [])
    ≡ err inconsistent_ack_ranges
write_ranges-long_gap_example =
    write_ranges-long_gap big_endian-IsCodec true 5 (range 70000 70000) (range 5 6) [] (omega arith)
      refl (omega arith)
