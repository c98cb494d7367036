-- ===== src/FlowControl/Controller.antt =====
-- src/sa-ecf/internal/flowcontrol/flow_controller.go: the windows of one stream, or of the
-- connection (stream 0). Times and durations are numbers of nanoseconds, `none` the zero time.
pub mod Windows
pub mod Granted
use ivsh.Common.{
  ℕ, ◌+◌, ◌-◌, ◌*◌, ◌/◌, ◌&&◌, List, [], ◌∷◌, Bool, true, false, not, Option, none, some, ltb, leb,
  ◌==◌, if◌then◌else◌, add64, sub64, mul64,
}

-- What the handshake package's ConnectionParametersManager answers when it is asked.
pub record ConnectionParameters : Type 0 where
  pub send_stream_window : ℕ
  pub send_connection_window : ℕ
  pub receive_stream_window : ℕ
  pub receive_connection_window : ℕ
  pub max_receive_stream_window : ℕ
  pub max_receive_connection_window : ℕ

-- The clock and the round-trip times, ours and those that the peer reports for its paths.
pub record Timing : Type 0 where
  pub now : ℕ
  pub smoothed_rtt : ℕ
  pub remote_rtts : List ℕ

pub record FlowController : Type 0 where
  pub stream_id : ℕ
  pub contributes_to_connection : Bool
  pub bytes_sent : ℕ
  pub send_window : ℕ
  pub bytes_retrans : ℕ
  pub last_window_update_time : Option ℕ
  pub bytes_read : ℕ
  pub highest_received : ℕ
  pub receive_window : ℕ
  pub receive_window_increment : ℕ
  pub max_receive_window_increment : ℕ

unfoldable pub new_flow_controller : ℕ → Bool → ConnectionParameters → FlowController
new_flow_controller stream_id contributes cp =
    let window =
      if stream_id == 0 then cp.receive_connection_window else cp.receive_stream_window in
    record {
      stream_id = stream_id;
      contributes_to_connection = contributes;
      bytes_sent = 0;
      send_window = 0;
      bytes_retrans = 0;
      last_window_update_time = none;
      bytes_read = 0;
      highest_received = 0;
      receive_window = window;
      receive_window_increment = window;
      max_receive_window_increment =
          if stream_id == 0 then cp.max_receive_connection_window else cp.max_receive_stream_window;
    }

unfoldable pub get_send_window : ConnectionParameters → FlowController → ℕ
get_send_window cp c =
    if c.send_window == 0
    then (if c.stream_id == 0 then cp.send_connection_window else cp.send_stream_window)
    else c.send_window

unfoldable pub add_bytes_sent : ℕ → FlowController → FlowController
add_bytes_sent n c = record c { bytes_sent = add64 c.bytes_sent n }

unfoldable pub add_bytes_retrans : ℕ → FlowController → FlowController
add_bytes_retrans n c = record c { bytes_retrans = add64 c.bytes_retrans n }

unfoldable pub update_send_window : ℕ → FlowController → FlowController × Bool
update_send_window new_offset c =
    if ltb c.send_window new_offset
    then (record c { send_window = new_offset }, true)
    else (c, false)

unfoldable pub send_window_size : ConnectionParameters → FlowController → ℕ
unfolding get_send_window
send_window_size cp c =
    let send_window = get_send_window cp c in
    if ltb send_window c.bytes_sent then 0 else sub64 send_window c.bytes_sent

-- The increment, or `none` for ErrReceivedSmallerByteOffset.
unfoldable pub update_highest_received : ℕ → FlowController → FlowController × Option ℕ
update_highest_received byte_offset c =
    if byte_offset == c.highest_received
    then (c, some 0)
    else if ltb c.highest_received byte_offset
    then (record c { highest_received = byte_offset }, some (sub64 byte_offset c.highest_received))
    else (c, none)

unfoldable pub increment_highest_received : ℕ → FlowController → FlowController
increment_highest_received increment c = record c {
  highest_received = add64 c.highest_received increment;
}

unfoldable pub add_bytes_read : ℕ → ℕ → FlowController → FlowController
add_bytes_read now n c = record c {
  last_window_update_time = if c.bytes_read == 0 then some now else c.last_window_update_time;
  bytes_read = add64 c.bytes_read n;
}

abbrev pub max_duration : ℕ → ℕ → ℕ
max_duration a b = if ltb b a then a else b

abbrev pub min_byte_count : ℕ → ℕ → ℕ
min_byte_count a b = if ltb a b then a else b

-- The loop over the remote round-trip times.
abbrev max_remote_rtt : List ℕ → ℕ → ℕ
max_remote_rtt [] longest = longest
max_remote_rtt (rtt ∷ rtts) longest = max_remote_rtt rtts (max_duration longest rtt)

-- Whether the last update is too recent; `none` never is.
abbrev is_frequent : Timing → Option ℕ → Bool
is_frequent t none = false
is_frequent t (some last) =
    not (t.smoothed_rtt == 0)
    && not (leb (2 * max_duration t.smoothed_rtt (max_remote_rtt t.remote_rtts 0)) (t.now - last))

unfoldable pub maybe_adjust_window_increment : Timing → FlowController → FlowController
maybe_adjust_window_increment t c =
    if is_frequent t c.last_window_update_time
    then record c {
      receive_window_increment =
          min_byte_count (mul64 2 c.receive_window_increment) c.max_receive_window_increment;
    }
    else c

-- The results are whether the window was updated, an increment and the offset of the window.
unfoldable pub maybe_update_window : Timing → FlowController → FlowController × (Bool × ℕ × ℕ)
unfolding maybe_adjust_window_increment
maybe_update_window t c =
    let diff = sub64 c.receive_window c.bytes_read in
    if ltb diff (c.receive_window_increment / 2)
    then (let adjusted = maybe_adjust_window_increment t c in
        let increment = adjusted.receive_window_increment in
        let window = add64 c.bytes_read increment in
        (
          record adjusted { last_window_update_time = some t.now; receive_window = window },
          (true, (if increment == c.receive_window_increment then 0 else increment), window),
        ))
    else (c, (false, c.receive_window_increment, c.receive_window))

unfoldable pub ensure_minimum_window_increment : ℕ → FlowController → FlowController
ensure_minimum_window_increment inc c =
    if ltb c.receive_window_increment inc
    then record c {
      receive_window_increment = min_byte_count inc c.max_receive_window_increment;
      last_window_update_time = none;
    }
    else c

unfoldable pub check_flow_control_violation : FlowController → Bool
check_flow_control_violation c = ltb c.receive_window c.highest_received
