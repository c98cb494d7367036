-- ===== src/Wire/Control.antt =====
-- src/sa-ecf/internal/wire: RST_STREAM, WINDOW_UPDATE, BLOCKED, PING, GOAWAY, CONNECTION_CLOSE and
-- STOP_WAITING frames. A reason phrase is the list of its bytes.
pub mod RoundTrip
pub mod Frames
use ivsh.Common.{ℕ, ◌+◌, ◌-◌, ◌%◌, ◌^◌, List, [], ◌∷◌, ◌++◌, length, ltb, leb, ◌==◌, if◌then◌else◌}
use ivsh.Common.Result.{ok, err, ◌>>=◌}
use ivsh.Utils.Reader.{Parse, read_byte, read_full}
use ivsh.Utils.Reader.{
  invalid_goaway_data, invalid_connection_close_data, invalid_stop_waiting_data,
}
use ivsh.Utils.ByteOrder.{ByteOrder, Write, packet_number_not_set, least_unacked_higher}
use ivsh.Utils.ByteOrder.{packet_number_len_not_set, reason_phrase_too_long}
use ivsh.Wire.StreamFrame.{max_packet_size}

pub record RstStreamFrame : Type 0 where
  pub stream_id : ℕ
  pub error_code : ℕ
  pub byte_offset : ℕ

unfoldable pub write_rst_stream : ByteOrder → RstStreamFrame → Write
write_rst_stream o f = ok (
    0x01
    ∷ (o.write_uint32 f.stream_id ++ (o.write_uint64 f.byte_offset ++ o.write_uint32 f.error_code)))

unfoldable pub parse_rst_stream : ByteOrder → List ℕ → Parse RstStreamFrame
parse_rst_stream o r = do
  (_, r) ← read_byte r
  (sid, r) ← o.read_uint32 r
  (byte_offset, r) ← o.read_uint64 r
  (error_code, r) ← o.read_uint32 r
  ok (record { stream_id = sid; error_code = error_code; byte_offset = byte_offset }, r)

pub record WindowUpdateFrame : Type 0 where
  pub stream_id : ℕ
  pub byte_offset : ℕ

unfoldable pub write_window_update : ByteOrder → WindowUpdateFrame → Write
write_window_update o f = ok (0x04 ∷ (o.write_uint32 f.stream_id ++ o.write_uint64 f.byte_offset))

unfoldable pub parse_window_update : ByteOrder → List ℕ → Parse WindowUpdateFrame
parse_window_update o r = do
  (_, r) ← read_byte r
  (sid, r) ← o.read_uint32 r
  (byte_offset, r) ← o.read_uint64 r
  ok (record { stream_id = sid; byte_offset = byte_offset }, r)

pub record BlockedFrame : Type 0 where
  pub stream_id : ℕ

unfoldable pub write_blocked : ByteOrder → BlockedFrame → Write
write_blocked o f = ok (0x05 ∷ o.write_uint32 f.stream_id)

unfoldable pub parse_blocked : ByteOrder → List ℕ → Parse BlockedFrame
parse_blocked o r = do
  (_, r) ← read_byte r
  (sid, r) ← o.read_uint32 r
  ok (record { stream_id = sid }, r)

pub data PingFrame : Type 0 where
  ping : PingFrame

unfoldable pub write_ping : PingFrame → Write
write_ping f = ok (0x07 ∷ [])

unfoldable pub parse_ping : List ℕ → Parse PingFrame
parse_ping r = do (_, r) ← read_byte r; ok (ping, r)

pub record GoawayFrame : Type 0 where
  pub error_code : ℕ
  pub last_good_stream : ℕ
  pub reason_phrase : List ℕ

unfoldable pub write_goaway : ByteOrder → GoawayFrame → Write
write_goaway o f = ok (
    0x03
    ∷ (o.write_uint32 f.error_code
        ++ (o.write_uint32 f.last_good_stream
            ++ (o.write_uint16 (length f.reason_phrase % 2 ^ 16) ++ f.reason_phrase))))

unfoldable pub parse_goaway : ByteOrder → List ℕ → Parse GoawayFrame
parse_goaway o r = do
  (_, r) ← read_byte r
  (error_code, r) ← o.read_uint32 r
  (last_good_stream, r) ← o.read_uint32 r
  (len, r) ← o.read_uint16 r
  if ltb max_packet_size len then err invalid_goaway_data else do
    (reason, r) ← read_full len r
    ok (
      record {
        error_code = error_code;
        last_good_stream = last_good_stream;
        reason_phrase = reason;
      },
      r,
    )

pub record ConnectionCloseFrame : Type 0 where
  pub error_code : ℕ
  pub reason_phrase : List ℕ

-- The length is checked after the error code is written; a failed write is thrown away.
unfoldable pub write_connection_close : ByteOrder → ConnectionCloseFrame → Write
write_connection_close o f =
    if ltb (2 ^ 16 - 1) (length f.reason_phrase)
    then err reason_phrase_too_long
    else ok (
        0x02
        ∷ (o.write_uint32 f.error_code
            ++ (o.write_uint16 (length f.reason_phrase % 2 ^ 16) ++ f.reason_phrase)))

unfoldable pub parse_connection_close : ByteOrder → List ℕ → Parse ConnectionCloseFrame
parse_connection_close o r = do
  (_, r) ← read_byte r
  (error_code, r) ← o.read_uint32 r
  (len, r) ← o.read_uint16 r
  if ltb max_packet_size len then err invalid_connection_close_data else do
    (reason, r) ← read_full len r
    ok (record { error_code = error_code; reason_phrase = reason }, r)

-- A length of 0 is PacketNumberLenInvalid.
pub record StopWaitingFrame : Type 0 where
  pub least_unacked : ℕ
  pub packet_number_len : ℕ
  pub packet_number : ℕ

write_delta : ByteOrder → ℕ → ℕ → Write
write_delta o len delta =
    if len == 1
    then ok (delta % 2 ^ 8 ∷ [])
    else if len == 2
    then ok (o.write_uint16 (delta % 2 ^ 16))
    else if len == 4
    then ok (o.write_uint32 (delta % 2 ^ 32))
    else if len == 6
    then o.write_uint48 (delta % 2 ^ 48)
    else err packet_number_len_not_set

unfoldable pub write_stop_waiting : ByteOrder → StopWaitingFrame → Write
unfolding write_delta
write_stop_waiting o f =
    if f.packet_number == 0
    then err packet_number_not_set
    else if ltb f.packet_number f.least_unacked
    then err least_unacked_higher
    else do
      delta ← write_delta o f.packet_number_len (f.packet_number - f.least_unacked)
      ok (0x06 ∷ delta)

-- The other two fields keep Go's zero values.
unfoldable pub parse_stop_waiting : ByteOrder → ℕ → ℕ → List ℕ → Parse StopWaitingFrame
parse_stop_waiting o packet_number packet_number_len r = do
  (_, r) ← read_byte r
  (delta, r) ← o.read_uint_n packet_number_len r
  if leb packet_number delta
      then err invalid_stop_waiting_data
      else ok (
        record { least_unacked = packet_number - delta; packet_number_len = 0; packet_number = 0 },
        r,
      )
