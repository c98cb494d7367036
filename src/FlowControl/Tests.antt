-- ===== src/FlowControl/Tests.antt =====
-- src/sa-ecf/internal/flowcontrol: runs of the flow control.
use ivsh.Common.{◌+◌, ◌≤◌, ◌≡◌, ◌-◌, List, refl, arith, [], ◌∷◌, true, false, none, some}
use ivsh.Common.Assoc.{lookup}
use ivsh.FlowControl.Controller.{
  ConnectionParameters, FlowController, Timing, get_send_window, maybe_update_window,
  maybe_adjust_window_increment, new_flow_controller, update_send_window,
}
use ivsh.FlowControl.Controller
use ivsh.FlowControl.Controller.Windows.{Inv, WithinSendWindow, maybe_update_window-opens}
use ivsh.FlowControl.Controller.Granted
use ivsh.FlowControl.Controller.Granted.{sends, updates, records, run-granted}
use ivsh.FlowControl.Manager.{
  FlowControlManager, account, add_bytes_sent, reset_stream, send_window_size,
  update_highest_received,
}
use ivsh.FlowControl.Manager.Accounts.{
  Accounted, add_bytes_sent-windows, accept, final, accept-Accounted,
}

abbrev parameters : ConnectionParameters
parameters = record {
  send_stream_window = 100;
  send_connection_window = 150;
  receive_stream_window = 40;
  receive_connection_window = 60;
  max_receive_stream_window = 1000;
  max_receive_connection_window = 1500;
}

abbrev timing : Timing
timing = record { now = 1000; smoothed_rtt = 300; remote_rtts = 100 ∷ 400 ∷ [] }

-- A stream of which all but 15 bytes of the window are read.
abbrev reading : FlowController
reading = record {
  stream_id = 5;
  contributes_to_connection = true;
  bytes_sent = 30;
  send_window = 0;
  bytes_retrans = 0;
  last_window_update_time = some 900;
  bytes_read = 25;
  highest_received = 25;
  receive_window = 40;
  receive_window_increment = 40;
  max_receive_window_increment = 1000;
}

abbrev connection : FlowController
connection = record {
  stream_id = 0;
  contributes_to_connection = false;
  bytes_sent = 90;
  send_window = 200;
  bytes_retrans = 0;
  last_window_update_time = none;
  bytes_read = 25;
  highest_received = 25;
  receive_window = 60;
  receive_window_increment = 60;
  max_receive_window_increment = 1500;
}

abbrev manager : FlowControlManager
manager = record {
  connection_parameters = parameters;
  streams = (5, reading) ∷ [];
  conn = connection;
}

reading-Inv : Inv reading
reading-Inv = record {
  read = omega arith;
  window = omega arith;
  increment = omega arith;
  max = omega arith;
}

doubled : (maybe_update_window timing reading).1 ≡ (true, 80, 105)
unfolding maybe_update_window maybe_adjust_window_increment
doubled = refl

accepted : (update_highest_received 5 35 manager).1 ≡ none
unfolding update_highest_received account Controller.update_highest_received
    Controller.increment_highest_received Controller.check_flow_control_violation
accepted = refl

resets : (reset_stream 5 35 manager).1 ≡ none
unfolding reset_stream account Controller.update_highest_received
    Controller.increment_highest_received Controller.check_flow_control_violation
resets = refl

sized : send_window_size 5 manager ≡ some 70
unfolding send_window_size Controller.send_window_size get_send_window
sized = refl

stream-WithinSendWindow : WithinSendWindow parameters reading
unfolding get_send_window
stream-WithinSendWindow = (omega arith, omega arith)

connection-WithinSendWindow : WithinSendWindow parameters connection
unfolding get_send_window
connection-WithinSendWindow = (omega arith, omega arith)

maybe_update_window-opens_example :
    let (c', (updated, _, offset)) = maybe_update_window timing reading in
    (40 ≤ c'.receive_window)
    × (offset ≡ c'.receive_window)
    × (20 + c'.bytes_read ≤ c'.receive_window)
    × (updated ≡ true)
    × (updated ≡ true → c'.receive_window ≡ 25 + c'.receive_window_increment)
    × (40 ≤ c'.receive_window_increment)
    × (c'.receive_window_increment ≤ 1000)
maybe_update_window-opens_example = maybe_update_window-opens timing reading reading-Inv

-- The stream starts with 100 bytes, and sends 90; 60 is less, but replaces them.
abbrev granting : List Granted.Event
granting = sends 90 ∷ updates 60 ∷ sends 10 ∷ updates 120 ∷ updates 80 ∷ sends 70 ∷ []

granting_flags : records 0 granting ≡ true ∷ true ∷ false ∷ []
granting_flags = refl

granting_bytes : (Granted.run parameters granting (new_flow_controller 5 true parameters)).2 ≡ 120
unfolding Granted.run new_flow_controller update_send_window get_send_window
    Controller.send_window_size Controller.add_bytes_sent
granting_bytes = refl

run-granted_example :
    let (k, flags, bytes) =
      Granted.run parameters granting (new_flow_controller 5 true parameters) in
    (get_send_window parameters k ≡ 120)
    × (flags ≡ records 0 granting)
    × (k.bytes_sent ≡ bytes)
    × (bytes ≤ 120)
    × (Controller.send_window_size parameters k ≡ 120 - k.bytes_sent)
run-granted_example =
    run-granted parameters 5 true granting (omega arith)
      (tt, (omega arith, (tt, (omega arith, (omega arith, (tt, tt))))))

accept-Accounted_example : Accounted 5 35 manager (accept (final 5 35) manager).0
accept-Accounted_example = accept-Accounted (final 5 35) manager (omega arith) (omega arith) resets

add_bytes_sent-windows_example :
    let (m', error) = add_bytes_sent 5 70 manager in
    (error ≡ none)
    × ((c' : FlowController) × (lookup 5 m'.streams ≡ some c')
        × WithinSendWindow parameters c'
        × WithinSendWindow parameters m'.conn
        × (c'.bytes_sent ≡ 100)
        × (m'.conn.bytes_sent ≡ 160))
add_bytes_sent-windows_example =
    add_bytes_sent-windows 5 70 70 reading manager refl stream-WithinSendWindow
      connection-WithinSendWindow sized (omega arith)
