-- ===== src/Wire/Control/Frames.antt =====
-- src/sa-ecf/internal/wire: the control frames together, each with its writer and its parser.
use ivsh.Common.{◌-◌, ◌*◌, ◌^◌, ◌≤◌, ◌<◌, ◌≡◌, ◌⊎◌, length}
use ivsh.Utils.ByteOrder.{ByteOrder, IsCodec}
use ivsh.Wire.StreamFrame.{max_packet_size}
use ivsh.Wire.Control.{
  RstStreamFrame, WindowUpdateFrame, BlockedFrame, GoawayFrame, ConnectionCloseFrame,
  StopWaitingFrame,
}
use ivsh.Wire.Control
use ivsh.Wire.Control.RoundTrip.{RoundTrip}
use ivsh.Wire.Control.RoundTrip

pub data ControlFrame : Type 0 where
  rst_stream : RstStreamFrame → ControlFrame
  window_update : WindowUpdateFrame → ControlFrame
  blocked : BlockedFrame → ControlFrame
  goaway : GoawayFrame → ControlFrame
  connection_close : ConnectionCloseFrame → ControlFrame
  stop_waiting : StopWaitingFrame → ControlFrame

-- The fields fit their types, and a reason phrase a packet. A STOP_WAITING frame is for a number above 0
-- and up to that of its packet, with a length of 1, 2, 4 or 6 bytes that their difference fits.
abbrev pub IsWellFormed : ControlFrame → Type 0
IsWellFormed (rst_stream f) =
    (f.stream_id < 2 ^ 32) × (f.byte_offset < 2 ^ 64) × (f.error_code < 2 ^ 32)
IsWellFormed (window_update f) = (f.stream_id < 2 ^ 32) × (f.byte_offset < 2 ^ 64)
IsWellFormed (blocked f) = f.stream_id < 2 ^ 32
IsWellFormed (goaway f) =
    (f.error_code < 2 ^ 32)
    × (f.last_good_stream < 2 ^ 32)
    × (length f.reason_phrase ≤ max_packet_size)
IsWellFormed (connection_close f) =
    (f.error_code < 2 ^ 32) × (length f.reason_phrase ≤ max_packet_size)
IsWellFormed (stop_waiting f) =
    (0 < f.least_unacked)
    × (f.least_unacked ≤ f.packet_number)
    × ((f.packet_number_len ≡ 1)
        ⊎ ((f.packet_number_len ≡ 2) ⊎ ((f.packet_number_len ≡ 4) ⊎ (f.packet_number_len ≡ 6))))
    × (f.packet_number - f.least_unacked < 2 ^ (f.packet_number_len * 8))

-- The frame is written, and is parsed as it was written, whatever follows it. The parser of STOP_WAITING
-- is given the packet number and its length, and does not store them.
abbrev pub IsParsedBack : ByteOrder → ControlFrame → Type 0
IsParsedBack o (rst_stream f) =
    RoundTrip (Control.write_rst_stream o f) (Control.parse_rst_stream o) f
IsParsedBack o (window_update f) =
    RoundTrip (Control.write_window_update o f) (Control.parse_window_update o) f
IsParsedBack o (blocked f) = RoundTrip (Control.write_blocked o f) (Control.parse_blocked o) f
IsParsedBack o (goaway f) = RoundTrip (Control.write_goaway o f) (Control.parse_goaway o) f
IsParsedBack o (connection_close f) =
    RoundTrip (Control.write_connection_close o f) (Control.parse_connection_close o) f
IsParsedBack o (stop_waiting f) =
    RoundTrip (Control.write_stop_waiting o f)
      (Control.parse_stop_waiting o f.packet_number f.packet_number_len)
      (record { least_unacked = f.least_unacked; packet_number_len = 0; packet_number = 0 })

-- Every control frame (RST_STREAM, WINDOW_UPDATE, BLOCKED, GOAWAY, CONNECTION_CLOSE, STOP_WAITING) whose fields
-- fit is written, and is parsed as it was written, whatever follows it; of a STOP_WAITING frame this
-- is `least_unacked`.
pub write-IsParsedBack :
    {o : ByteOrder} → (codec : IsCodec o) (c : ControlFrame) → IsWellFormed c → IsParsedBack o c
write-IsParsedBack codec (rst_stream f) (hs, ho, he) = RoundTrip.rst_stream codec f hs ho he
write-IsParsedBack codec (window_update f) (hs, ho) = RoundTrip.window_update codec f hs ho
write-IsParsedBack codec (blocked f) hs = RoundTrip.blocked codec f hs
write-IsParsedBack codec (goaway f) (he, hs, hr) = RoundTrip.goaway codec f he hs hr
write-IsParsedBack codec (connection_close f) (he, hr) = RoundTrip.connection_close codec f he hr
write-IsParsedBack codec (stop_waiting f) (pos, le, len, fit) =
    RoundTrip.stop_waiting codec f pos le len fit
