-- ===== src/Wire/Tests.antt =====
-- src/sa-ecf/internal/wire: frames written and parsed.
use ivsh.Common.{ℕ, ◌+◌, ◌≡◌, inl, inr, refl, arith, List, [], ◌∷◌, ◌++◌, true, length}
use ivsh.Common.Result.{ok, err}
use ivsh.Utils.Reader.{eof}
use ivsh.Utils.ByteOrder.BigEndian.{big_endian}
use ivsh.Utils.ByteOrder.LittleEndian.{little_endian}
use ivsh.Utils.ByteOrder.LittleEndian.Codec.{little_endian-IsCodec}
use ivsh.Wire.StreamFrame.{
  StreamFrame, data_len, min_length, offset_length, parse_stream_frame, stream_id_length,
  write_stream_frame,
}
use ivsh.Wire.StreamFrame.RoundTrip.{parse_stream_frame-write, IsWritable}
use ivsh.Wire.StreamFrame.Accepted.{parse_stream_frame-IsAccepted, IsAccepted}
use ivsh.Utils.ByteOrder.BigEndian.Codec.{big_endian-IsCodec}
use ivsh.Wire.Control.{StopWaitingFrame}
use ivsh.Wire.Control.Frames.{stop_waiting, IsParsedBack, write-IsParsedBack}

abbrev waiting : StopWaitingFrame
waiting = record { least_unacked = 69000; packet_number_len = 4; packet_number = 70000 }

abbrev hello : StreamFrame
hello = record {
  stream_id = 5;
  fin_bit = true;
  data_len_present = true;
  offset = 0x1234;
  bytes = 104 ∷ 105 ∷ [];
}

abbrev hello_bytes : List ℕ
hello_bytes = 0xe4 ∷ 5 ∷ 0x12 ∷ 0x34 ∷ 0 ∷ 2 ∷ 104 ∷ 105 ∷ []

write_hello : write_stream_frame big_endian hello ≡ ok hello_bytes
unfolding write_stream_frame big_endian stream_id_length offset_length
write_hello = refl

parse_hello : parse_stream_frame big_endian hello_bytes ≡ ok (hello, [])
unfolding parse_stream_frame big_endian
parse_hello = refl

parse_cut : parse_stream_frame big_endian (0xe4 ∷ 5 ∷ 0x12 ∷ []) ≡ err eof
unfolding parse_stream_frame big_endian
parse_cut = refl

hello-IsWritable : IsWritable hello
unfolding data_len
hello-IsWritable = record {
  id = omega arith;
  end = omega arith;
  size = omega arith;
  content = inl refl;
}

parse_stream_frame-write_example :
    (bs : List ℕ) × (write_stream_frame little_endian hello ≡ ok bs)
    × (length bs ≡ min_length hello + data_len hello)
    × (parse_stream_frame little_endian (bs ++ (7 ∷ [])) ≡ ok (hello, 7 ∷ []))
parse_stream_frame-write_example =
    parse_stream_frame-write little_endian-IsCodec hello (7 ∷ []) hello-IsWritable (inl refl)

parse_stream_frame-IsAccepted_example : IsAccepted hello
parse_stream_frame-IsAccepted_example =
    parse_stream_frame-IsAccepted big_endian hello_bytes [] hello parse_hello

write-IsParsedBack_example : IsParsedBack big_endian (stop_waiting waiting)
write-IsParsedBack_example =
    write-IsParsedBack big_endian-IsCodec (stop_waiting waiting)
      (omega arith, omega arith, inr (inr (inl refl)), omega arith)
