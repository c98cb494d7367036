-- ===== src/FlowControl/Manager/Accounts.antt =====
-- src/sa-ecf/internal/flowcontrol/flow_control_manager.go: the connection's accounts agree with
-- those of the streams that contribute to it.
use ivsh.Common.{
  ℕ, Option, ◌+◌, ◌^◌, ◌≤◌, ◌<◌, ◌≡◌, ◌≢◌, refl, arith, true, none, some, if◌then◌else◌, Bool-cases,
  Option-cases, inl, inr,
}
use ivsh.Common.Assoc.{lookup, insert, total, total-insert, lookup-insert}
use ivsh.FlowControl.Controller.{FlowController, ConnectionParameters}
use ivsh.FlowControl.Controller
use ivsh.FlowControl.Controller.Windows.{WithinSendWindow}
use ivsh.FlowControl.Manager.{
  FlowControlManager, Error, account, update_highest_received, reset_stream, add_bytes_sent,
  send_window_size, change_both, or_zero,
}

-- What a stream counts for on the connection.
abbrev pub share : FlowController → ℕ
share c = if c.contributes_to_connection then c.highest_received else 0

-- What an accepted offset leaves behind: the stream is known, counts at least up to the offset and
-- is within its receive window, the connection is within its own if the stream contributes to it,
-- and the connection's count grew by exactly what the streams' shares grew by.
pub record Accounted (id offset : ℕ) (m m' : FlowControlManager) : Type 0 where
  pub stream : FlowController
  pub known : lookup id m'.streams ≡ some stream
  pub counted : offset ≤ stream.highest_received
  pub stream_window : stream.highest_received ≤ stream.receive_window
  pub connection_window :
      stream.contributes_to_connection ≡ true → m'.conn.highest_received ≤ m'.conn.receive_window
  pub balance :
      m'.conn.highest_received + total share m.streams
      ≡ m.conn.highest_received + total share m'.streams

account-Accounted :
    (id offset n : ℕ) (c c' : FlowController) (m : FlowControlManager)
    → lookup id m.streams ≡ some c
    → c'.contributes_to_connection ≡ c.contributes_to_connection
    → c'.highest_received ≡ c.highest_received + n
    → offset ≤ c'.highest_received
    → m.conn.highest_received + n < 2 ^ 64
    → (account id c' n m).1 ≡ none
    → Accounted id offset m (account id c' n m).0
unfolding account Controller.check_flow_control_violation Controller.increment_highest_received
account-Accounted id offset n c c' m known same grown counted word accepted = record {
  stream = c';
  known = ground (arith, lookup-insert id id c' m.streams);
  counted = counted;
  stream_window = ground arith;
  connection_window = ground arith;
  balance = ground (arith, total-insert share id c' c m.streams);
}

no_error : {e : Error} → some e ≢ none
no_error h = cc

grow_lem :
    (offset : ℕ) (c : FlowController)
    → offset < 2 ^ 64
    → let (c', increment) = Controller.update_highest_received offset c in
      (c'.contributes_to_connection ≡ c.contributes_to_connection)
      × (c'.highest_received ≡ c.highest_received + or_zero increment)
      × (offset ≤ c'.highest_received)
      × (or_zero increment ≤ offset)
unfolding Controller.update_highest_received
grow_lem offset c word = ground arith

update_highest_received-Accounted :
    (id offset : ℕ) (m : FlowControlManager)
    → offset < 2 ^ 64
    → m.conn.highest_received + offset < 2 ^ 64
    → (update_highest_received id offset m).1 ≡ none
    → Accounted id offset m (update_highest_received id offset m).0
unfolding update_highest_received
update_highest_received-Accounted id offset m word room accepted =
    elim (Option-cases (lookup id m.streams)) [
      | inl missing ↦ absurd (no_error (rw (missing, update_highest_received) at accepted))
      | inr (c, known) ↦
          let (same, grown, counted, small) = grow_lem offset c word in
          rw (known, update_highest_received)
            (account-Accounted id offset _ c _ m known same grown counted (omega arith)
              (rw (known, update_highest_received) at accepted))
    ]

reset_stream-Accounted :
    (id offset : ℕ) (m : FlowControlManager)
    → offset < 2 ^ 64
    → m.conn.highest_received + offset < 2 ^ 64
    → (reset_stream id offset m).1 ≡ none
    → Accounted id offset m (reset_stream id offset m).0
unfolding reset_stream
reset_stream-Accounted id offset m word room accepted = elim (Option-cases (lookup id m.streams)) [
  | inl missing ↦ absurd (no_error (rw (missing, reset_stream) at accepted))
  | inr (c, known) ↦
      let (same, grown, counted, small) = grow_lem offset c word in
      elim (Option-cases (Controller.update_highest_received offset c).1) [
        | inl smaller ↦ absurd (no_error (rw (known, reset_stream, smaller) at accepted))
        | inr (n, grows) ↦
            let grown' : (Controller.update_highest_received offset c).0.highest_received
                ≡ c.highest_received + n =
              rw grows at grown in
            rw (known, reset_stream, grows)
              (account-Accounted id offset n c _ m known same grown' counted (omega arith)
                (rw (known, reset_stream, grows) at accepted))
      ]
]

-- The two messages of the peer that carry an offset: of received data, and the final one of a reset
-- stream.
pub data Offset : Type 0 where
  highest final : ℕ → ℕ → Offset

abbrev pub id_of : Offset → ℕ
id_of (highest id offset) = id
id_of (final id offset) = id

abbrev pub value_of : Offset → ℕ
value_of (highest id offset) = offset
value_of (final id offset) = offset

abbrev pub accept : Offset → FlowControlManager → FlowControlManager × Option Error
accept (highest id offset) m = update_highest_received id offset m
accept (final id offset) m = reset_stream id offset m

-- When UpdateHighestReceived or ResetStream accepts an offset for a stream, and the counts fit 64 bits,
-- the stream is known, counts at least up to the offset and is within its receive window, the
-- connection is within its own if the stream contributes to it, and the count of the connection
-- grew by exactly what the shares of its streams grew by.
pub accept-Accounted :
    (o : Offset) (m : FlowControlManager)
    → value_of o < 2 ^ 64
    → m.conn.highest_received + value_of o < 2 ^ 64
    → (accept o m).1 ≡ none
    → Accounted (id_of o) (value_of o) m (accept o m).0
accept-Accounted (highest id offset) m word room accepted =
    update_highest_received-Accounted id offset m word room accepted
accept-Accounted (final id offset) m word room accepted =
    reset_stream-Accounted id offset m word room accepted

lookup-inserted :
    (id : ℕ) (c : FlowController) (m : FlowControlManager)
    → lookup id (insert id c m.streams) ≡ some c
lookup-inserted id c m = ground (arith, lookup-insert id id c m.streams)

sent_lem :
    (cp : ConnectionParameters) (n : ℕ) (c : FlowController)
    → WithinSendWindow cp c
    → n ≤ Controller.send_window_size cp c
    → WithinSendWindow cp (Controller.add_bytes_sent n c)
      × ((Controller.add_bytes_sent n c).bytes_sent ≡ c.bytes_sent + n)
unfolding Controller.send_window_size Controller.add_bytes_sent
sent_lem cp n c w h = ground arith

-- If a known stream and the connection are within the windows that the peer granted, sending on
-- the stream at most what `send_window_size` allows gives no error, keeps both within the
-- windows, and counts the bytes for the stream, and for the connection just if the stream
-- contributes to it.
pub add_bytes_sent-windows :
    (id n size : ℕ) (c : FlowController) (m : FlowControlManager)
    → lookup id m.streams ≡ some c
    → WithinSendWindow m.connection_parameters c
    → WithinSendWindow m.connection_parameters m.conn
    → send_window_size id m ≡ some size
    → n ≤ size
    → let (m', error) = add_bytes_sent id n m in
      (error ≡ none)
      × ((c' : FlowController) × (lookup id m'.streams ≡ some c')
          × WithinSendWindow m.connection_parameters c'
          × WithinSendWindow m.connection_parameters m'.conn
          × (c'.bytes_sent ≡ c.bytes_sent + n)
          × (m'.conn.bytes_sent
              ≡ (if c.contributes_to_connection then m.conn.bytes_sent + n else m.conn.bytes_sent)))
unfolding add_bytes_sent change_both send_window_size
add_bytes_sent-windows id n size c m known stream conn sized le =
    let cp = m.connection_parameters in
    let stored = lookup-inserted id (Controller.add_bytes_sent n c) m in
    let found : (if c.contributes_to_connection
          then Controller.min_byte_count (Controller.send_window_size cp c)
              (Controller.send_window_size cp m.conn)
          else Controller.send_window_size cp c)
        ≡ size =
      ground (arith, known, sized) in
    elim (Bool-cases c.contributes_to_connection) [
      | inl shared ↦
          let (c-within, c-sent) = sent_lem cp n c stream (ground arith) in
          let (conn-within, conn-sent) = sent_lem cp n m.conn conn (ground arith) in
          rw (known, add_bytes_sent, change_both)
            (simp shared (
              refl,
              (Controller.add_bytes_sent n c, stored, c-within, conn-within, c-sent, conn-sent),
            ))
      | inr own ↦
          let (c-within, c-sent) = sent_lem cp n c stream (ground arith) in
          rw (known, add_bytes_sent, change_both)
            (simp own (refl, (Controller.add_bytes_sent n c, stored, c-within, conn, c-sent, refl)))
    ]
