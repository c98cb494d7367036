-- ===== src/FlowControl/Controller/Granted.antt =====
-- src/sa-ecf/internal/flowcontrol/flow_controller.go: what the peer grants over any run of
-- WINDOW_UPDATE frames and of sends.
use ivsh.Common.{
  ℕ, ◌+◌, ◌-◌, ◌^◌, ◌≤◌, ◌<◌, ◌≡◌, refl, arith, List, [], ◌∷◌, Bool, ltb, ◌==◌, if◌then◌else◌, All,
  ◌∙◌,
}
use ivsh.FlowControl.Controller.{
  ConnectionParameters, FlowController, get_send_window, add_bytes_sent, send_window_size,
  update_send_window, new_flow_controller,
}

-- A WINDOW_UPDATE with its offset, or a send of `n` bytes, cut to what `send_window_size` allows.
pub data Event : Type 0 where
  updates sends : ℕ → Event

abbrev limited_to : ℕ → ℕ → ℕ
limited_to room n = if ltb room n then room else n

-- The controller, what `update_send_window` returned for each WINDOW_UPDATE, and the bytes of all
-- the sends.
unfoldable pub run :
    ConnectionParameters → List Event → FlowController → FlowController × List Bool × ℕ
unfolding update_send_window send_window_size add_bytes_sent
run cp [] c = (c, [], 0)
run cp (updates offset ∷ es) c =
    let (c', updated) = update_send_window offset c in
    let (last, flags, sent) = run cp es c' in (last, updated ∷ flags, sent)
run cp (sends n ∷ es) c =
    let bytes = limited_to (send_window_size cp c) n in
    let (last, flags, sent) = run cp es (add_bytes_sent bytes c) in (last, flags, bytes + sent)

abbrev pub larger : ℕ → ℕ → ℕ
larger a b = if ltb a b then b else a

-- The largest offset, from `m` on.
abbrev pub largest_offset : ℕ → List Event → ℕ
largest_offset m [] = m
largest_offset m (updates offset ∷ es) = largest_offset (larger m offset) es
largest_offset m (sends n ∷ es) = largest_offset m es

-- For each WINDOW_UPDATE, whether its offset exceeds all those before it and `m`.
abbrev pub records : ℕ → List Event → List Bool
records m [] = []
records m (updates offset ∷ es) = ltb m offset ∷ records (larger m offset) es
records m (sends n ∷ es) = records m es

abbrev pub negotiated_window : ConnectionParameters → ℕ → ℕ
negotiated_window cp stream_id =
    if stream_id == 0 then cp.send_connection_window else cp.send_stream_window

-- The negotiated window, until there is an offset above 0.
abbrev pub granted : ℕ → ℕ → ℕ
granted negotiated m = if m == 0 then negotiated else m

-- The offsets are below 2 ^ 62.
abbrev pub IsSmall : Event → Type 0
IsSmall (updates offset) = offset < 2 ^ 62
IsSmall (sends n) = Unit {0}

update_step :
    (offset : ℕ) (c : FlowController)
    → let (c', updated) = update_send_window offset c in
      (c'.send_window ≡ larger c.send_window offset)
      × (updated ≡ ltb c.send_window offset)
      × (c'.bytes_sent ≡ c.bytes_sent)
      × (c'.stream_id ≡ c.stream_id)
unfolding update_send_window
update_step offset c = ground arith

-- No more was sent than the negotiated window or the largest offset, and nothing overflows.
abbrev IsWithin : ℕ → FlowController → Type 0
IsWithin negotiated c = (c.send_window < 2 ^ 62) × (c.bytes_sent ≤ larger negotiated c.send_window)

send_step :
    (cp : ConnectionParameters) (n : ℕ) (c : FlowController)
    → negotiated_window cp c.stream_id < 2 ^ 62
    → IsWithin (negotiated_window cp c.stream_id) c
    → let bytes = limited_to (send_window_size cp c) n in
      let c' = add_bytes_sent bytes c in
      IsWithin (negotiated_window cp c.stream_id) c'
      × (c'.send_window ≡ c.send_window)
      × (c'.stream_id ≡ c.stream_id)
      × (c'.bytes_sent ≡ c.bytes_sent + bytes)
unfolding add_bytes_sent send_window_size get_send_window
send_step cp n c small (window, sent) = ground arith

run-IsWithin :
    (cp : ConnectionParameters) (es : List Event) (c : FlowController)
    → negotiated_window cp c.stream_id < 2 ^ 62
    → All IsSmall es
    → IsWithin (negotiated_window cp c.stream_id) c
    → let (k, flags, bytes) = run cp es c in
      (k.send_window ≡ largest_offset c.send_window es)
      × (flags ≡ records c.send_window es)
      × (k.stream_id ≡ c.stream_id)
      × IsWithin (negotiated_window cp c.stream_id) k
      × (k.bytes_sent ≡ c.bytes_sent + bytes)
unfolding run
run-IsWithin cp [] c small h v = (refl, refl, refl, v, omega arith)
run-IsWithin cp (updates offset ∷ es) c small (below, h) (window, sent) =
    let (larger_one, updated, same, id) = update_step offset c in
    let c' = (update_send_window offset c).0 in
    let w : IsWithin (negotiated_window cp c.stream_id) c' =
      rw (larger_one, same) (ground arith, ground arith) in
    let (last, flags, id', w', total) = run-IsWithin cp es c' (rw id small) h (rw id w) in
    (
      rw larger_one at last,
      rw (updated, rw larger_one at flags) refl,
      id' ∙ id,
      rw id at w',
      rw same at total,
    )
run-IsWithin cp (sends n ∷ es) c small (_, h) v =
    let (w, window, id, counted) = send_step cp n c small v in
    let c' = add_bytes_sent (limited_to (send_window_size cp c) n) c in
    let (last, flags, id', w', total) = run-IsWithin cp es c' (rw id small) h (rw id w) in
    (rw window at last, rw window at flags, id' ∙ id, rw id at w', total ∙ omega (arith, counted))

send_window-granted :
    (cp : ConnectionParameters) (k : FlowController)
    → negotiated_window cp k.stream_id < 2 ^ 62
    → k.send_window < 2 ^ 62
    → let window = granted (negotiated_window cp k.stream_id) k.send_window in
      (get_send_window cp k ≡ window) × (send_window_size cp k ≡ window - k.bytes_sent)
unfolding send_window_size get_send_window
send_window-granted cp k small window = ground arith

-- A new controller, after any run of WINDOW_UPDATEs and of sends that are cut to what
-- `send_window_size` allows, with offsets and a negotiated window below 2 ^ 62: the window is the
-- largest offset, or the negotiated window while no offset was above 0; each WINDOW_UPDATE returned
-- whether its offset exceeded 0 and all those before it; the bytes that are counted are those of the
-- sends, no more than the negotiated window or the largest offset, whichever is larger; and
-- what may be sent is what is left of the window, or nothing if that is below what was sent.
pub run-granted :
    (cp : ConnectionParameters) (stream_id : ℕ) (contributes : Bool) (es : List Event)
    → negotiated_window cp stream_id < 2 ^ 62
    → All IsSmall es
    → let (k, flags, bytes) = run cp es (new_flow_controller stream_id contributes cp) in
      let negotiated = negotiated_window cp stream_id in
      let largest = largest_offset 0 es in
      (get_send_window cp k ≡ granted negotiated largest)
      × (flags ≡ records 0 es)
      × (k.bytes_sent ≡ bytes)
      × (bytes ≤ larger negotiated largest)
      × (send_window_size cp k ≡ granted negotiated largest - k.bytes_sent)
unfolding new_flow_controller
run-granted cp stream_id contributes es small h =
    let (last, flags, id, (below, sent), total) =
      run-IsWithin cp es (new_flow_controller stream_id contributes cp) small h
        (omega arith, omega arith) in
    let k = (run cp es (new_flow_controller stream_id contributes cp)).0 in
    let counted : k.bytes_sent ≡ (run cp es (new_flow_controller stream_id contributes cp)).2 =
      total ∙ omega arith in
    let (window, size) = send_window-granted cp k (rw id small) below in
    (rw (id, last) at window, flags, counted, rw (last, counted) at sent, rw (id, last) at size)
