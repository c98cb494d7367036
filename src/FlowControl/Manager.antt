-- ===== src/FlowControl/Manager.antt =====
-- src/sa-ecf/internal/flowcontrol/flow_control_manager.go: the controllers of all streams and of
-- the connection. The mutex makes each method one step. A method that can fail returns the state
-- that it leaves with the error, since Go keeps what was changed before.
pub mod Accounts
use ivsh.Common.{
  ℕ, ◌*◌, ◌/◌, List, [], ◌∷◌, ◌++◌, Bool, true, false, not, ◌&&◌, ◌||◌, Option, none, some, ◌==◌,
  if◌then◌else◌,
}
use ivsh.Common.Assoc.{lookup, insert, erase}
use ivsh.FlowControl.Controller.{ConnectionParameters, Timing, FlowController, min_byte_count}
use ivsh.FlowControl.Controller

pub data Error : Type 0 where
  map_access stream_data_after_termination flow_control_received_too_much_data : Error

pub record FlowControlManager : Type 0 where
  pub connection_parameters : ConnectionParameters
  pub streams : List (ℕ × FlowController)
  pub conn : FlowController

pub record WindowUpdate : Type 0 where
  pub stream_id : ℕ
  pub offset : ℕ

unfoldable pub new_flow_control_manager : ConnectionParameters → FlowControlManager
new_flow_control_manager cp = record {
  connection_parameters = cp;
  streams = [];
  conn = Controller.new_flow_controller 0 false cp;
}

abbrev has : Option FlowController → Bool
has none = false
has (some c) = true

unfoldable pub new_stream : ℕ → Bool → FlowControlManager → FlowControlManager
new_stream id contributes m = if has (lookup id m.streams) then m else record m {
  streams =
      insert id (Controller.new_flow_controller id contributes m.connection_parameters) m.streams;
}

unfoldable pub remove_stream : ℕ → FlowControlManager → FlowControlManager
remove_stream id m = record m { streams = erase id m.streams }

-- What ResetStream and UpdateHighestReceived do once the stream's controller is updated.
unfoldable pub account :
    ℕ → FlowController → ℕ → FlowControlManager → FlowControlManager × Option Error
account id c increment m =
    let m' = record m { streams = insert id c m.streams } in
    if Controller.check_flow_control_violation c
    then (m', some flow_control_received_too_much_data)
    else if c.contributes_to_connection
    then (let conn' = Controller.increment_highest_received increment m.conn in
        (
          record m' { conn = conn' },
          (if Controller.check_flow_control_violation conn'
              then some flow_control_received_too_much_data
              else none),
        ))
    else (m', none)

unfoldable pub reset_stream : ℕ → ℕ → FlowControlManager → FlowControlManager × Option Error
unfolding account
reset_stream id byte_offset m = elim (lookup id m.streams) [
  | none ↦ (m, some map_access)
  | some c ↦
      let (c', increment) = Controller.update_highest_received byte_offset c in
      elim increment [ none ↦ (m, some stream_data_after_termination) | some n ↦ account id c' n m ]
]

abbrev or_zero : Option ℕ → ℕ
or_zero none = 0
or_zero (some n) = n

-- A smaller offset, of a frame that was reordered, is no error here: the increment is 0.
unfoldable pub update_highest_received :
    ℕ → ℕ → FlowControlManager → FlowControlManager × Option Error
unfolding account
update_highest_received id byte_offset m = elim (lookup id m.streams) [
  | none ↦ (m, some map_access)
  | some c ↦
      let (c', increment) = Controller.update_highest_received byte_offset c in
      account id c' (or_zero increment) m
]

-- A change of the stream's controller, and of the connection's if the stream contributes to it.
unfoldable pub change_both :
    (FlowController → FlowController) → ℕ → FlowControlManager → FlowControlManager × Option Error
change_both f id m = elim (lookup id m.streams) [
  | none ↦ (m, some map_access)
  | some c ↦ (
    record m {
      streams = insert id (f c) m.streams;
      conn = if c.contributes_to_connection then f m.conn else m.conn;
    },
    none,
  )
]

unfoldable pub add_bytes_read : ℕ → ℕ → ℕ → FlowControlManager → FlowControlManager × Option Error
unfolding change_both
add_bytes_read now id n m = change_both (Controller.add_bytes_read now n) id m

unfoldable pub add_bytes_sent : ℕ → ℕ → FlowControlManager → FlowControlManager × Option Error
unfolding change_both
add_bytes_sent id n m = change_both (Controller.add_bytes_sent n) id m

unfoldable pub add_bytes_retrans : ℕ → ℕ → FlowControlManager → FlowControlManager × Option Error
unfolding change_both
add_bytes_retrans id n m = change_both (Controller.add_bytes_retrans n) id m

-- `protocol.ByteCount(float64(n) * 1.5)`, which is exact below 2 ^ 52.
abbrev times_multiplier : ℕ → ℕ
times_multiplier n = n * 3 / 2

-- One stream of the loop in GetWindowUpdates.
abbrev stream_update :
    Timing
    → Bool
    → ℕ
    → FlowController
    → FlowController
    → FlowController × FlowController × List WindowUpdate
stream_update t force id c conn =
    let (c', (necessary, increment, offset)) = Controller.maybe_update_window t c in
    if force || necessary
    then (
      c',
      (if c'.contributes_to_connection && not (increment == 0)
          then Controller.ensure_minimum_window_increment (times_multiplier increment) conn
          else conn),
      record { stream_id = id; offset = offset } ∷ [],
    )
    else (c', conn, [])

-- The loop: the controllers that are left, the connection's, and the updates.
pub stream_updates :
    Timing
    → Bool
    → List (ℕ × FlowController)
    → FlowController
    → List (ℕ × FlowController) × FlowController × List WindowUpdate
stream_updates t force [] conn = ([], conn, [])
stream_updates t force ((id, c) ∷ rest) conn =
    let (c', conn', update) = stream_update t force id c conn in
    let (rest', conn'', updates) = stream_updates t force rest conn' in
    ((id, c') ∷ rest', conn'', update ++ updates)

unfoldable pub get_window_updates :
    Timing → Bool → FlowControlManager → FlowControlManager × List WindowUpdate
unfolding stream_updates
get_window_updates t force m =
    let (streams, conn, updates) = stream_updates t force m.streams m.conn in
    let (conn', (necessary, _, offset)) = Controller.maybe_update_window t conn in
    (
      record m { streams = streams; conn = conn' },
      (if force || necessary
          then updates ++ (record { stream_id = 0; offset = offset } ∷ [])
          else updates),
    )

unfoldable pub get_receive_window : ℕ → FlowControlManager → Option ℕ
get_receive_window id m =
    if id == 0
    then some m.conn.receive_window
    else elim (lookup id m.streams) [ none ↦ none | some c ↦ some c.receive_window ]

unfoldable pub get_bytes_sent : ℕ → FlowControlManager → Option ℕ
get_bytes_sent id m = elim (lookup id m.streams) [ none ↦ none | some c ↦ some c.bytes_sent ]

unfoldable pub get_bytes_retrans : ℕ → FlowControlManager → Option ℕ
get_bytes_retrans id m = elim (lookup id m.streams) [ none ↦ none | some c ↦ some c.bytes_retrans ]

unfoldable pub remaining_connection_window_size : FlowControlManager → ℕ
remaining_connection_window_size m = Controller.send_window_size m.connection_parameters m.conn

unfoldable pub send_window_size : ℕ → FlowControlManager → Option ℕ
send_window_size id m = elim (lookup id m.streams) [
  | none ↦ none
  | some c ↦
      let res = Controller.send_window_size m.connection_parameters c in
      some (
        if c.contributes_to_connection
        then min_byte_count res (Controller.send_window_size m.connection_parameters m.conn)
        else res)
]

-- `none` is the error of an unknown stream.
unfoldable pub update_window : ℕ → ℕ → FlowControlManager → FlowControlManager × Option Bool
update_window id offset m =
    if id == 0
    then (let (conn', updated) = Controller.update_send_window offset m.conn in
        (record m { conn = conn' }, some updated))
    else elim (lookup id m.streams) [
      | none ↦ (m, none)
      | some c ↦
          let (c', updated) = Controller.update_send_window offset c in
          (record m { streams = insert id c' m.streams }, some updated)
    ]
