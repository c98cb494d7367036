-- ===== src/AckHandler/Received.antt =====
-- src/sa-ecf/ackhandler/received_packet_handler.go: which received packets are acknowledged, and
-- when. The clock is the argument `now`; a time is a number of nanoseconds, `none` the zero time.
pub mod Ranges
pub mod Invariant
pub mod Reachable
pub mod Acks
use ivsh.Common.{
  ℕ, ◌+◌, List, [], ◌∷◌, Bool, true, false, not, ◌&&◌, ◌||◌, Option, none, some, length, ltb, leb,
  ◌==◌, if◌then◌else◌, add64,
}
use ivsh.Common.Result.{Result, ok, err, ◌>>=◌}
use ivsh.Wire.AckFrame.{AckFrame, AckRange, ClosePathFrame}
use ivsh.AckHandler.History.{
  History, new_history, received_packet, delete_up_to, get_ack_ranges, get_highest_ack_range,
}

-- `index_out_of_range` is Go's panic at `ackRanges[len(ackRanges)-1]` on an empty slice.
pub data Error : Type 0 where
  invalid_packet_number : Error
  too_many_ranges : Error
  index_out_of_range : Error

pub record ReceivedPacketHandler : Type 0 where
  pub largest_observed : ℕ
  pub lower_limit : ℕ
  pub largest_observed_received_time : Option ℕ
  pub packet_history : History
  pub ack_send_delay : ℕ
  pub packets_received_since_last_ack : ℕ
  pub retransmittable_packets_received_since_last_ack : ℕ
  pub ack_queued : Bool
  pub ack_alarm : Option ℕ
  pub last_ack : Option AckFrame
  pub version : ℕ
  pub packets : ℕ

abbrev version39 : ℕ
version39 = 39

abbrev max_packets_received_before_ack_send : ℕ
max_packets_received_before_ack_send = 20

abbrev retransmittable_packets_before_ack : ℕ
retransmittable_packets_before_ack = 2

-- AckSendDelay, 25 milliseconds.
abbrev ack_send_delay_default : ℕ
ack_send_delay_default = 25_000_000

unfoldable pub new_received_packet_handler : ℕ → ReceivedPacketHandler
unfolding new_history
new_received_packet_handler version = record {
  largest_observed = 0;
  lower_limit = 0;
  largest_observed_received_time = none;
  packet_history = new_history;
  ack_send_delay = ack_send_delay_default;
  packets_received_since_last_ack = 0;
  retransmittable_packets_received_since_last_ack = 0;
  ack_queued = false;
  ack_alarm = none;
  last_ack = none;
  version = version;
  packets = 0;
}

abbrev is_zero : Option ℕ → Bool
is_zero none = true
is_zero (some t) = false

-- The conditions on the last ACK: there is none, a packet below its largest was missing in it, or
-- a new range began above its largest.
abbrev queued_by_last_ack : Option AckFrame → ℕ → ℕ → Bool
queued_by_last_ack none p highest_first = true
queued_by_last_ack (some ack) p highest_first =
    ltb p ack.largest_acked || ltb ack.largest_acked highest_first

abbrev is_some : Option AckFrame → Bool
is_some none = false
is_some (some a) = true

unfoldable pub maybe_queue_ack : ℕ → ℕ → Bool → ReceivedPacketHandler → ReceivedPacketHandler
maybe_queue_ack now p should_instigate_ack h =
    let received = h.packets_received_since_last_ack + 1 in
    let retransmittable =
      if should_instigate_ack
      then h.retransmittable_packets_received_since_last_ack + 1
      else h.retransmittable_packets_received_since_last_ack in
    let queued =
      h.ack_queued
      || queued_by_last_ack h.last_ack p (get_highest_ack_range h.packet_history).first
      || (ltb h.version version39 && leb max_packets_received_before_ack_send received) in
    let queued' =
      queued || (should_instigate_ack && leb retransmittable_packets_before_ack retransmittable) in
    let alarm =
      if not queued && should_instigate_ack && is_zero h.ack_alarm
      then some (now + h.ack_send_delay)
      else h.ack_alarm in
    record h {
      packets_received_since_last_ack = received;
      retransmittable_packets_received_since_last_ack = retransmittable;
      ack_queued = queued';
      ack_alarm = if queued' then none else alarm;
    }

abbrev observe : ℕ → ℕ → ReceivedPacketHandler → ReceivedPacketHandler
observe now p h =
    if ltb h.largest_observed p
    then record h { largest_observed = p; largest_observed_received_time = some now }
    else h

-- The new state, with the error that is returned, if any.
unfoldable pub received :
    ℕ → ℕ → Bool → ReceivedPacketHandler → ReceivedPacketHandler × Option Error
unfolding maybe_queue_ack
received now p should_instigate_ack h =
    if p == 0
    then (h, some invalid_packet_number)
    else let h' = observe now p (record h { packets = add64 h.packets 1 }) in
      if leb p h'.lower_limit then (h', none) else elim (received_packet p h'.packet_history) [
        | ok history ↦ (
          maybe_queue_ack now p should_instigate_ack (record h' { packet_history = history }),
          none,
        )
        | err e ↦ (h', some too_many_ranges)
      ]

unfoldable pub set_lower_limit : ℕ → ReceivedPacketHandler → ReceivedPacketHandler
set_lower_limit p h = record h { lower_limit = p; packet_history = delete_up_to p h.packet_history }

-- `alarm.After(now)`
abbrev is_after : Option ℕ → ℕ → Bool
is_after none now = false
is_after (some t) now = ltb now t

-- `ackRanges[len(ackRanges)-1]`
abbrev pub last_range : List AckRange → Result Error AckRange
last_range [] = err index_out_of_range
last_range (r ∷ []) = ok r
last_range (r ∷ s ∷ rs) = last_range (s ∷ rs)

abbrev pub build_ack : List AckRange → ℕ → Option ℕ → Result Error AckFrame
build_ack ranges largest time = do
  lowest ← last_range ranges
  ok (record {
    largest_acked = largest;
    lowest_acked = lowest.first;
    ack_ranges = if ltb 1 (length ranges) then ranges else [];
    packet_received_time = time;
    path_id = 0;
    delay_time = 0;
  })

unfoldable pub get_ack_frame :
    ℕ → ReceivedPacketHandler → Result Error (Option AckFrame × ReceivedPacketHandler)
get_ack_frame now h =
    if not h.ack_queued && (is_zero h.ack_alarm || is_after h.ack_alarm now)
    then ok (none, h)
    else do
      ack ←
          build_ack (get_ack_ranges h.packet_history) h.largest_observed
            h.largest_observed_received_time
      ok (
        some ack,
        record h {
          last_ack = some ack;
          ack_alarm = none;
          ack_queued = false;
          packets_received_since_last_ack = 0;
          retransmittable_packets_received_since_last_ack = 0;
        },
      )

unfoldable pub get_close_path_frame : ReceivedPacketHandler → Result Error ClosePathFrame
get_close_path_frame h = do
  let ranges = get_ack_ranges h.packet_history
  lowest ← last_range ranges
  ok (record {
    path_id = 0;
    largest_acked = h.largest_observed;
    lowest_acked = lowest.first;
    ack_ranges = if ltb 1 (length ranges) then ranges else [];
  })
