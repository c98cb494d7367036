-- ===== src/AckHandler/Packet.antt =====
-- src/sa-ecf/ackhandler/packet.go and retransmittable.go: sent packets and their frames. Of the
-- frames, which are Go's `wire.Frame` interface, only the types are looked at here.
use ivsh.Common.{ℕ, List, [], ◌∷◌, Bool, true, false, ◌||◌, Option, filter, if◌then◌else◌}
use ivsh.Wire.StreamFrame.{StreamFrame}
use ivsh.Wire.AckFrame.{AckFrame, ClosePathFrame}
use ivsh.Wire.Control.{
  RstStreamFrame, WindowUpdateFrame, BlockedFrame, PingFrame, GoawayFrame, ConnectionCloseFrame,
  StopWaitingFrame,
}

-- ADD_ADDRESS and PATHS frames are without their fields.
pub data Frame : Type 0 where
  stream_frame : StreamFrame → Frame
  ack_frame : AckFrame → Frame
  stop_waiting_frame : StopWaitingFrame → Frame
  rst_stream_frame : RstStreamFrame → Frame
  window_update_frame : WindowUpdateFrame → Frame
  blocked_frame : BlockedFrame → Frame
  ping_frame : PingFrame → Frame
  goaway_frame : GoawayFrame → Frame
  connection_close_frame : ConnectionCloseFrame → Frame
  close_path_frame : ClosePathFrame → Frame
  add_address_frame paths_frame : Frame

pub data EncryptionLevel : Type 0 where
  unspecified unencrypted secure forward_secure : EncryptionLevel

pub record Packet : Type 0 where
  pub packet_number : ℕ
  pub frames : List Frame
  pub length : ℕ
  pub encryption_level : EncryptionLevel
  pub send_time : Option ℕ

unfoldable pub is_frame_retransmittable : Frame → Bool
is_frame_retransmittable (stop_waiting_frame f) = false
is_frame_retransmittable (ack_frame f) = false
is_frame_retransmittable _ = true

unfoldable pub strip_non_retransmittable_frames : List Frame → List Frame
unfolding is_frame_retransmittable
strip_non_retransmittable_frames fs = filter is_frame_retransmittable fs

unfoldable pub has_retransmittable_frames : List Frame → Bool
unfolding is_frame_retransmittable
has_retransmittable_frames [] = false
has_retransmittable_frames (f ∷ fs) =
    if is_frame_retransmittable f then true else has_retransmittable_frames fs

-- The cases of the type switch in IsRetransmittable.
abbrev pub is_listed : Frame → Bool
is_listed (ack_frame f) = false
is_listed (stop_waiting_frame f) = false
is_listed (connection_close_frame f) = false
is_listed (close_path_frame f) = false
is_listed _ = true

abbrev pub any_listed : List Frame → Bool
any_listed [] = false
any_listed (f ∷ fs) = is_listed f || any_listed fs

unfoldable pub is_retransmittable : Packet → Bool
is_retransmittable p = any_listed p.frames

abbrev not_for_retransmission : Frame → Bool
not_for_retransmission (ack_frame f) = false
not_for_retransmission (stop_waiting_frame f) = false
not_for_retransmission _ = true

unfoldable pub get_frames_for_retransmission : Packet → List Frame
get_frames_for_retransmission p = filter not_for_retransmission p.frames
