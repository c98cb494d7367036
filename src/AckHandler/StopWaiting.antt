-- ===== src/AckHandler/StopWaiting.antt =====
-- src/sa-ecf/ackhandler/stop_waiting_manager.go: which STOP_WAITING frame goes out next.
pub mod Monotone
use ivsh.Common.{ℕ, Bool, true, false, ◌&&◌, Option, none, some, ltb, leb, if◌then◌else◌, add64}
use ivsh.Wire.AckFrame.{AckFrame}
use ivsh.Wire.Control.{StopWaitingFrame}

pub record StopWaitingManager : Type 0 where
  pub largest_least_unacked_sent : ℕ
  pub next_least_unacked : ℕ
  pub last_stop_waiting_frame : Option StopWaitingFrame

-- The other fields keep Go's zero values until the packer fills them in.
abbrev pub frame_for : ℕ → StopWaitingFrame
frame_for n = record { least_unacked = n; packet_number_len = 0; packet_number = 0 }

abbrev is_none : Option StopWaitingFrame → Bool
is_none none = true
is_none (some f) = false

unfoldable pub get_stop_waiting_frame :
    Bool → StopWaitingManager → StopWaitingManager × Option StopWaitingFrame
get_stop_waiting_frame force s =
    let frame = some (frame_for s.next_least_unacked) in
    if leb s.next_least_unacked s.largest_least_unacked_sent
    then (if force
        then (if is_none s.last_stop_waiting_frame && ltb 0 s.largest_least_unacked_sent
            then (record s { last_stop_waiting_frame = frame }, frame)
            else (s, s.last_stop_waiting_frame))
        else (s, none))
    else (
      record s {
        largest_least_unacked_sent = s.next_least_unacked;
        last_stop_waiting_frame = frame;
      },
      frame,
    )

unfoldable pub received_ack : AckFrame → StopWaitingManager → StopWaitingManager
received_ack ack s =
    if leb s.next_least_unacked ack.largest_acked
    then record s { next_least_unacked = add64 ack.largest_acked 1 }
    else s

unfoldable pub queued_retransmission_for_packet_number : ℕ → StopWaitingManager → StopWaitingManager
queued_retransmission_for_packet_number p s =
    if leb s.next_least_unacked p then record s { next_least_unacked = add64 p 1 } else s
