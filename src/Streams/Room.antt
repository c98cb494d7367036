-- ===== src/Streams/Room.antt =====
-- src/sa-ecf/streams_map.go: how many streams of the peer the limit leaves room for.
use ivsh.Common.{
  ℕ, zero, suc, ◌+◌, ◌-◌, ◌*◌, ◌%◌, ◌^◌, ◌≤◌, ◌<◌, ◌≡◌, refl, ap, sym, ◌∙◌, arith, List, [], ◌∷◌,
  ◌++◌, true, false, Option, none, some, ltb, leb, if◌then◌else◌, inl, inr, Bool-cases,
}
use mathlib.Core.List.{append-nil}
use ivsh.Common.Assoc.{lookup}
use ivsh.Streams.Map.{
  StreamsMap, Perspective, server, client, Limits, Error, too_many_open_streams, is_own, put_stream,
  open_remote_stream, open_up_to, max_new_stream_id_delta,
}
use ivsh.Streams.Lists.{lookup-Absent}
use ivsh.Streams.Invariant.{Inv, peer_fresh}
use ivsh.Streams.Operations.{open_remote_stream-Inv, is_own-next}

-- `count` IDs of one side, from `sid` on.
abbrev pub ids_from : ℕ → ℕ → List ℕ
ids_from sid zero = []
ids_from sid (suc count) = sid ∷ ids_from (sid + 2) count

-- How many of `wanted` streams are opened with `counted` of at most `most` incoming streams. What a
-- server opens for its peer counts, what a client opens does not.
abbrev pub openable : Perspective → ℕ → ℕ → ℕ → ℕ
openable server most counted wanted = if ltb wanted (most - counted) then wanted else most - counted
openable client most counted wanted = if ltb counted most then wanted else 0

abbrev counted_after : Perspective → ℕ → ℕ
counted_after server counted = (counted + 1) % 2 ^ 32
counted_after client counted = counted

pub openable-le :
    (pers : Perspective) (most counted wanted : ℕ) → openable pers most counted wanted ≤ wanted
openable-le server most counted wanted = ground arith
openable-le client most counted wanted = ground arith

openable-zero : (pers : Perspective) (most counted : ℕ) → openable pers most counted 0 ≡ 0
openable-zero server most counted = ground arith
openable-zero client most counted = ground arith

openable-full :
    (pers : Perspective) (most counted wanted : ℕ)
    → most ≤ counted
    → openable pers most counted wanted ≡ 0
openable-full server most counted wanted full = ground arith
openable-full client most counted wanted full = ground arith

openable-next :
    (pers : Perspective) (most counted wanted : ℕ)
    → most < 2 ^ 32
    → counted < most
    → openable pers most counted (suc wanted)
      ≡ suc (openable pers most (counted_after pers counted) wanted)
openable-next server most counted wanted word room = ground arith
openable-next client most counted wanted word room = ground arith

append-ids_from :
    (l : List ℕ) (sid count : ℕ)
    → (l ++ (sid ∷ [])) ++ ids_from (sid + 2) count ≡ l ++ ids_from sid (suc count)
append-ids_from [] sid count = refl
append-ids_from (id ∷ l) sid count = ap (λ (k : List ℕ). id ∷ k) (append-ids_from l sid count)

module _ {S : Type 0} where
  pub fresh_key :
      (id : ℕ) (m : StreamsMap S)
      → is_own m.perspective id ≡ false
      → m.highest_stream_opened_by_peer < id
      → Inv m
      → lookup id m.streams ≡ none
  fresh_key id m other lt v =
      let fresh =
        peer_fresh m.perspective m.next_stream m.highest_stream_opened_by_peer id m.open_streams
          other lt v.opened in
      lookup-Absent id m.streams (rw v.listed at fresh)

  -- One more stream is open.
  abbrev Adds : ℕ → StreamsMap S → StreamsMap S × Option Error → Type 0
  Adds id m r =
      (r.1 ≡ none)
      × (r.0.open_streams ≡ m.open_streams ++ (id ∷ []))
      × (r.0.perspective ≡ m.perspective)
      × (r.0.highest_stream_opened_by_peer ≡ id)
      × (r.0.num_incoming_streams ≡ counted_after m.perspective m.num_incoming_streams)

  open_remote_stream-Adds :
      (limits : Limits) (id : ℕ) (m : StreamsMap S)
      → is_own m.perspective id ≡ false
      → m.highest_stream_opened_by_peer < id
      → id + max_new_stream_id_delta < 2 ^ 32
      → leb limits.max_incoming_streams m.num_incoming_streams ≡ false
      → Inv m
      → Adds id m (open_remote_stream limits id m)
  unfolding open_remote_stream put_stream
  open_remote_stream-Adds limits id m other lt small room v =
      let missing = fresh_key id m other lt v in
      let higher : ltb m.highest_stream_opened_by_peer id ≡ true = ground (arith, lt) in
      let near : ltb ((id + max_new_stream_id_delta) % 2 ^ 32) m.highest_stream_opened_by_peer
          ≡ false =
        ground (arith, lt) in
      go m.perspective refl missing higher near
    where
      go :
          (pers : Perspective)
          → m.perspective ≡ pers
          → lookup id m.streams ≡ none
          → ltb m.highest_stream_opened_by_peer id ≡ true
          → ltb ((id + max_new_stream_id_delta) % 2 ^ 32) m.highest_stream_opened_by_peer ≡ false
          → Adds id m (open_remote_stream limits id m)
      go server p missing higher near =
          rw (open_remote_stream, room, near, p, higher, missing) (refl, refl, refl, refl, refl)
      go client p missing higher near =
          rw (open_remote_stream, room, near, p, higher, missing) (refl, refl, refl, refl, refl)

  open_remote_stream-full :
      (limits : Limits) (id : ℕ) (m : StreamsMap S)
      → leb limits.max_incoming_streams m.num_incoming_streams ≡ true
      → open_remote_stream limits id m ≡ (m, some too_many_open_streams)
  unfolding open_remote_stream
  open_remote_stream-full limits id m full = rw (open_remote_stream, full) refl

  open_up_to-full :
      (limits : Limits) (rounds sid : ℕ) (m : StreamsMap S)
      → leb limits.max_incoming_streams m.num_incoming_streams ≡ true
      → open_up_to limits (suc rounds) sid m ≡ (m, some too_many_open_streams)
  unfolding open_up_to
  open_up_to-full limits rounds sid m full =
      let failed = open_remote_stream-full limits sid m full in
      let error = ap (λ (r : StreamsMap S × Option Error). r.1) failed in
      let state = ap (λ (r : StreamsMap S × Option Error). r.0) failed in
      rw (open_up_to, error, state) refl

  open_up_to-next :
      (limits : Limits) (rounds sid : ℕ) (m : StreamsMap S)
      → (open_remote_stream limits sid m).1 ≡ none
      → open_up_to limits (suc rounds) sid m
        ≡ open_up_to limits rounds (sid + 2) (open_remote_stream limits sid m).0
  unfolding open_up_to
  open_up_to-next limits rounds sid m fine = rw (open_up_to, fine) refl

  -- The loop opens as many streams as there is room for, in order, and fails if some are left.
  pub open_up_to-openable :
      (limits : Limits) (rounds sid : ℕ) (m : StreamsMap S)
      → limits.max_incoming_streams < 2 ^ 32
      → is_own m.perspective sid ≡ false
      → m.highest_stream_opened_by_peer < sid
      → sid + 2 * rounds + max_new_stream_id_delta < 2 ^ 32 + 2
      → Inv m
      → let r = open_up_to limits rounds sid m in
        let count =
          openable m.perspective limits.max_incoming_streams m.num_incoming_streams rounds in
        (r.0.open_streams ≡ m.open_streams ++ ids_from sid count)
        × (r.1 ≡ (if ltb count rounds then some too_many_open_streams else none))
  open_up_to-openable limits zero sid m word other lt small v =
      let none_left =
        openable-zero m.perspective limits.max_incoming_streams m.num_incoming_streams in
      unfold open_up_to in rw none_left (sym (append-nil m.open_streams), refl)
  open_up_to-openable limits (suc rounds) sid m word other lt small v =
      let most = limits.max_incoming_streams in
      let counted = m.num_incoming_streams in
      elim (Bool-cases (leb most counted)) [
        | inl full ↦
            let none_left = openable-full m.perspective most counted (suc rounds) (ground arith) in
            rw (none_left, open_up_to-full limits rounds sid m full)
              (sym (append-nil m.open_streams), ground arith)
        | inr room ↦
            let (fine, listed, pers, highest, count) =
              open_remote_stream-Adds limits sid m other lt (omega arith) room v in
            let (ids, error) =
              open_up_to-openable limits rounds (sid + 2) (open_remote_stream limits sid m).0 word
                (rw pers (is_own-next m.perspective sid other)) (omega arith) (omega arith)
                (open_remote_stream-Inv limits sid m other lt v) in
            let next = openable-next m.perspective most counted rounds word (ground arith) in
            let left = openable (m.perspective) most (counted_after m.perspective counted) rounds in
            let ids' = rw (pers, count, listed) at ids in
            let error' = rw (pers, count) at error in
            rw (open_up_to-next limits rounds sid m fine, next)
              (ids' ∙ append-ids_from m.open_streams sid left, error' ∙ ground arith)
      ]
