-- ===== src/FlowControl/Controller/Windows.antt =====
-- src/sa-ecf/internal/flowcontrol/flow_controller.go: what is sent stays within the peer's window,
-- and the window that is offered to the peer never shrinks.
use ivsh.Common.{
  ℕ, ◌+◌, ◌-◌, ◌/◌, ◌^◌, ◌≤◌, ◌<◌, ◌≡◌, inl, inr, refl, arith, true, ltb, Bool-cases, IsU64, sub64,
  add64,
}
use ivsh.FlowControl.Controller.{
  ConnectionParameters, Timing, FlowController, get_send_window, add_bytes_sent, send_window_size,
  maybe_update_window, maybe_adjust_window_increment, is_frequent,
}

-- No more was sent than the peer allows.
abbrev pub WithinSendWindow : ConnectionParameters → FlowController → Type 0
WithinSendWindow cp c = (c.bytes_sent ≤ get_send_window cp c) × IsU64 (get_send_window cp c)

-- From within the window, sending at most what `send_window_size` allows stays within it, and
-- takes exactly that much of it.
pub add_bytes_sent-WithinSendWindow :
    (cp : ConnectionParameters) (n : ℕ) (c : FlowController)
    → WithinSendWindow cp c
    → n ≤ send_window_size cp c
    → WithinSendWindow cp (add_bytes_sent n c)
      × (send_window_size cp (add_bytes_sent n c) + n ≡ send_window_size cp c)
unfolding send_window_size add_bytes_sent
add_bytes_sent-WithinSendWindow cp n c w h = ground arith

-- The receiving side between calls, without overflow.
pub record Inv (c : FlowController) : Type 0 where
  pub read : c.bytes_read ≤ c.receive_window
  pub window : c.receive_window < 2 ^ 62
  pub increment : c.receive_window_increment ≤ c.max_receive_window_increment
  pub max : c.max_receive_window_increment < 2 ^ 62

maybe_adjust_lem :
    (t : Timing) (c : FlowController)
    → Inv c
    → let c' = maybe_adjust_window_increment t c in
      (c.receive_window_increment ≤ c'.receive_window_increment)
      × (c'.receive_window_increment ≤ c.max_receive_window_increment)
      × (c'.bytes_read ≡ c.bytes_read)
unfolding maybe_adjust_window_increment
maybe_adjust_lem t c v = elim (Bool-cases (is_frequent t c.last_window_update_time)) [
  | inl frequent ↦ rw (frequent, maybe_adjust_window_increment) (ground arith, ground arith, refl)
  | inr rare ↦ rw (rare, maybe_adjust_window_increment) (omega arith, v.increment, refl)
]

-- While no more was read than the window allows, and windows and increments are below 2 ^ 62:
-- the offered window never shrinks, whether or not it is updated; after the call at least half
-- of the old increment, rounded down, is open; the window is updated just when less was open,
-- and then it is a whole new increment ahead of what was read. The increment grows, up to the
-- maximum.
pub maybe_update_window-opens :
    (t : Timing) (c : FlowController)
    → Inv c
    → let (c', (updated, _, offset)) = maybe_update_window t c in
      (c.receive_window ≤ c'.receive_window)
      × (offset ≡ c'.receive_window)
      × (c.receive_window_increment / 2 + c'.bytes_read ≤ c'.receive_window)
      × (updated ≡ ltb (c.receive_window - c.bytes_read) (c.receive_window_increment / 2))
      × (updated ≡ true → c'.receive_window ≡ c.bytes_read + c'.receive_window_increment)
      × (c.receive_window_increment ≤ c'.receive_window_increment)
      × (c'.receive_window_increment ≤ c.max_receive_window_increment)
unfolding maybe_update_window
maybe_update_window-opens t c v =
    let (grows, capped, read) = maybe_adjust_lem t c v in
    elim (Bool-cases (ltb (sub64 c.receive_window c.bytes_read) (c.receive_window_increment / 2))) [
      | inl low ↦
          let room = small low in
          let whole = no_wrap (maybe_adjust_window_increment t c).receive_window_increment capped in
          rw (low, maybe_update_window, read, whole)
            (omega arith, refl, omega arith, ground arith, λ _. refl, grows, capped)
      | inr high ↦
          rw (high, maybe_update_window)
            (omega arith, refl, ground arith, ground arith, λ e. cc, omega arith, v.increment)
    ]
  where
    small :
        ltb (sub64 c.receive_window c.bytes_read) (c.receive_window_increment / 2) ≡ true
        → c.receive_window - c.bytes_read < c.receive_window_increment / 2
    small low = ground (arith, v.read, v.window)

    no_wrap : (i : ℕ) → i ≤ c.max_receive_window_increment → add64 c.bytes_read i ≡ c.bytes_read + i
    no_wrap i h = omega (arith, v.read, v.window, v.max)
