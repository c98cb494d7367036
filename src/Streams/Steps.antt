-- ===== src/Streams/Steps.antt =====
-- src/sa-ecf/streams_map.go: sequences of operations on the streams of a session.
use ivsh.Common.{
  ℕ, suc, ◌+◌, ◌-◌, ◌*◌, ◌%◌, ◌^◌, ◌≤◌, ◌<◌, ◌≡◌, refl, sym, ap, ◌∙◌, arith, List, [], ◌∷◌, Option,
  some, leb, ◌==◌, if◌then◌else◌, inl, inr, Bool-cases, Option-cases, length,
}
use ivsh.Common.Assoc.{lookup, insert}
use ivsh.Common.Result.{Result, ok, err}
use ivsh.Streams.Map.{
  StreamsMap, Perspective, server, client, Limits, Error, is_server, is_some, put_stream,
  open_stream, open_stream_impl, get_or_open_stream, new_streams_map,
}
use ivsh.Streams.Walk.{
  accept_stream, remove_stream, close_with_error, cancel_all, open_stream_sync, Outcome, waits,
  returns, is_too_many,
}
use ivsh.Streams.Lists.{keys}
use ivsh.Streams.Invariant.{Inv, new_streams_map-Inv}
use ivsh.Streams.Removing.{remove_stream-Inv}
use ivsh.Streams.Operations.{open_stream_impl-Inv, get_or_open_stream-Inv}

-- The operations, with what they are called with. A method that waits is called again later.
pub data Event (S : Type 0) : Type 0 where
  opens opens_sync : Limits → Event S
  gets : Limits → ℕ → Event S
  accepts : Event S
  removes : ℕ → Event S
  closes : (ℕ → S → S) → ℕ → Event S

module _ {S : Type 0} where
  unfoldable pub step : Event S → StreamsMap S → StreamsMap S
  step (opens limits) m = (open_stream limits m).0
  step (opens_sync limits) m = (open_stream_sync limits m).0
  step (gets limits id) m = (get_or_open_stream limits id m).0
  step accepts m = (accept_stream m).0
  step (removes id) m = (remove_stream id m).0
  step (closes cancel e) m = close_with_error cancel e m

  unfoldable pub run : List (Event S) → StreamsMap S → StreamsMap S
  unfolding step
  run [] m = m
  run (e ∷ es) m = run es (step e m)

  -- After `k` operations.
  abbrev pub After : ℕ → StreamsMap S → Type 0
  After k m = Inv m × (m.next_stream ≤ 2 * k + 2)

  open_stream_impl-next :
      (limits : Limits) (m : StreamsMap S)
      → m.next_stream + 2 < 2 ^ 32
      → (open_stream_impl limits m).0.next_stream ≤ m.next_stream + 2
  unfolding open_stream_impl put_stream
  open_stream_impl-next limits m small =
      elim (Bool-cases (leb limits.max_outgoing_streams m.num_outgoing_streams)) [
        | inl full ↦ rw full (omega arith)
        | inr room ↦ elim (Bool-cases (is_server m.perspective)) [
          | inl serving ↦ elim (Bool-cases (is_some (lookup m.next_stream m.streams))) [
            | inl present ↦ rw (room, serving, present) (omega arith)
            | inr missing ↦ rw (room, serving, missing) (omega arith)
          ]
          | inr calling ↦ elim (Bool-cases (is_some (lookup m.next_stream m.streams))) [
            | inl present ↦ rw (room, calling, present) (omega arith)
            | inr missing ↦ rw (room, calling, missing) (omega arith)
          ]
        ]
      ]

  opened-After :
      (k : ℕ) (limits : Limits) (m : StreamsMap S)
      → 2 * k + 4 < 2 ^ 32
      → After k m
      → After (suc k) (open_stream_impl limits m).0
  opened-After k limits m small (v, le) =
      let next = open_stream_impl-next limits m (omega arith) in
      (open_stream_impl-Inv limits m (omega arith) v, omega arith)

  later : (k : ℕ) (m : StreamsMap S) → After k m → After (suc k) m
  later k m (v, le) = (v, omega arith)

  open_stream-After :
      (k : ℕ) (limits : Limits) (m : StreamsMap S)
      → 2 * k + 4 < 2 ^ 32
      → After k m
      → After (suc k) (open_stream limits m).0
  unfolding open_stream
  open_stream-After k limits m small v = elim (Option-cases m.close_err) [
    | inl fine ↦ rw (open_stream, fine) (opened-After k limits m small v)
    | inr (e, closed) ↦ rw (open_stream, closed) (later k m v)
  ]

  open_stream_sync-After :
      (k : ℕ) (limits : Limits) (m : StreamsMap S)
      → 2 * k + 4 < 2 ^ 32
      → After k m
      → After (suc k) (open_stream_sync limits m).0
  unfolding open_stream_sync
  open_stream_sync-After k limits m small v = elim (Option-cases m.close_err) [
    | inl fine ↦
        rw (open_stream_sync, fine)
          (go (open_stream_impl limits m).1 (opened-After k limits m small v))
    | inr (e, closed) ↦ rw (open_stream_sync, closed) (later k m v)
  ]
    where
      go :
          (r : Result Error ℕ)
          → After (suc k) (open_stream_impl limits m).0
          → let after : StreamsMap S × Outcome (Result Error ℕ) = elim r [
            | ok id ↦ ((open_stream_impl limits m).0, returns (ok id))
            | err e ↦
                ((open_stream_impl limits m).0, (if is_too_many e then waits else returns (err e)))
          ] in
            After (suc k) after.0
      go (ok id) w = w
      go (err e) w = w

  accept_stream-After : (k : ℕ) (m : StreamsMap S) → After k m → After k (accept_stream m).0
  unfolding accept_stream
  accept_stream-After k m (v, le) = elim (Option-cases m.close_err) [
    | inr (e, closed) ↦ rw (accept_stream, closed) (v, le)
    | inl fine ↦ elim (Option-cases (lookup m.next_stream_to_accept m.streams)) [
      | inl waiting ↦ rw (accept_stream, fine, waiting) (v, le)
      | inr (s, found) ↦ rw (accept_stream, fine, found) (v, le)
    ]
  ]

  keys-replace :
      (id : ℕ) (s t : S) (streams : List (ℕ × S))
      → lookup id streams ≡ some s
      → keys (insert id t streams) ≡ keys streams
  keys-replace id s t [] found = cc
  keys-replace id s t (entry ∷ streams) found =
      let rest = keys-replace id s t streams in
      elim (Bool-cases (entry.0 == id)) [
        | inl here ↦
            let same : entry.0 ≡ id = ground (arith, here) in
            rw here (ap (λ (k : ℕ). k ∷ keys streams) (sym same))
        | inr other ↦
            let found' = rw other at found in
            rw other (ap (λ (l : List ℕ). entry.0 ∷ l) (rest found'))
      ]

  keys-cancel_all :
      (cancel : S → S) (ids : List ℕ) (streams : List (ℕ × S))
      → keys (cancel_all cancel ids streams) ≡ keys streams
  keys-cancel_all cancel [] streams = refl
  keys-cancel_all cancel (id ∷ ids) streams = elim (Option-cases (lookup id streams)) [
    | inl missing ↦ rw (cancel_all, missing) (keys-cancel_all cancel ids streams)
    | inr (s, found) ↦
        rw (cancel_all, found)
          (keys-cancel_all cancel ids (insert id (cancel s) streams)
            ∙ keys-replace id s (cancel s) streams found)
  ]

  close_with_error-Inv :
      (cancel : ℕ → S → S) (e : ℕ) (m : StreamsMap S) → Inv m → Inv (close_with_error cancel e m)
  unfolding close_with_error
  close_with_error-Inv cancel e m v = rw (keys-cancel_all (cancel e) m.open_streams m.streams) v

  remove_stream-next :
      (id : ℕ) (m : StreamsMap S) → (remove_stream id m).0.next_stream ≡ m.next_stream
  unfolding remove_stream
  remove_stream-next id m = elim (Option-cases (lookup id m.streams)) [
    | inl missing ↦ rw (remove_stream, missing) refl
    | inr (s, found) ↦ elim (Bool-cases (id % 2 == 0)) [
      | inl evens ↦ rw (remove_stream, found, evens) refl
      | inr odds ↦ rw (remove_stream, found, odds) refl
    ]
  ]

  step-After :
      (k : ℕ) (e : Event S) (m : StreamsMap S)
      → 2 * k + 4 < 2 ^ 32
      → After k m
      → After (suc k) (step e m)
  unfolding step
  step-After k (opens limits) m small v = open_stream-After k limits m small v
  step-After k (opens_sync limits) m small v = open_stream_sync-After k limits m small v
  step-After k (gets limits id) m small (v, le) =
      let (w, next) = get_or_open_stream-Inv limits id m v in (w, omega arith)
  step-After k accepts m small v = later k (accept_stream m).0 (accept_stream-After k m v)
  step-After k (removes id) m small (v, le) =
      let next = remove_stream-next id m in (remove_stream-Inv id m v, omega arith)
  step-After k (closes cancel e) m small (v, le) =
      unfold close_with_error in (close_with_error-Inv cancel e m v, omega arith)

  run_on-After :
      (k : ℕ) (es : List (Event S)) (m : StreamsMap S)
      → 2 * (k + length es) + 2 < 2 ^ 32
      → After k m
      → Inv (run es m)
  unfolding run
  run_on-After k [] m small (v, le) = v
  run_on-After k (e ∷ es) m small v =
      run_on-After (suc k) es (step e m) (omega arith) (step-After k e m (omega arith) v)

-- Whatever the sequence of fewer than 2 ^ 31 - 1 operations, those that fail or wait included: the
-- slice of the open streams holds the keys of the map in their order, no two of them the same, as the
-- loops over it rely on; the two counters are the numbers of even and of odd open IDs modulo 2 ^ 32; and
-- an open ID is below the next one that this side opens, or not above the highest that the peer opened.
pub run-Consistent :
    {S : Type 0} (make : ℕ → S) (pers : Perspective) (scheduler : Option (List ℕ))
    (es : List (Event S))
    → length es < 2 ^ 31 - 1
    → Inv (run es (new_streams_map make pers scheduler))
unfolding new_streams_map
run-Consistent make pers scheduler es few =
    run_on-After 0 es (new_streams_map make pers scheduler) (omega arith)
      (new_streams_map-Inv make pers scheduler, first pers)
  where
    first : (p : Perspective) → (new_streams_map make p scheduler).next_stream ≤ 2 * 0 + 2
    first server = omega arith
    first client = omega arith
