-- ===== src/Streams/Opened.antt =====
-- src/sa-ecf/streams_map.go: the streams that the peer opens by using them.
use ivsh.Common.{
  ℕ, zero, suc, ◌+◌, ◌-◌, ◌*◌, ◌/◌, ◌%◌, ◌^◌, ◌≤◌, ◌<◌, ◌≡◌, ◌⊎◌, refl, ap, ◌∙◌, arith, List, ◌++◌,
  true, false, ◌&&◌, Option, none, some, ltb, leb, ◌==◌, if◌then◌else◌, inl, inr, Bool-cases,
}
use ivsh.Common.Assoc.{lookup, insert, lookup-insert}
use ivsh.Common.Result.{ok, err}
use ivsh.Streams.Map.{
  StreamsMap, Perspective, server, client, Limits, Error, too_many_open_streams, is_server, is_own,
  put_stream, open_remote_stream, open_up_to, get_or_open_stream, first_to_open,
  max_new_stream_id_delta,
}
use ivsh.Streams.Invariant.{Inv}
use ivsh.Streams.Operations.{open_remote_stream-Inv, first_above, is_own-next}
use ivsh.Streams.Room.{fresh_key, ids_from, openable, openable-le, open_up_to-openable}

parity_rounds :
    (pers : Perspective) (sid id : ℕ)
    → is_own pers sid ≡ false
    → is_own pers id ≡ false
    → sid ≤ id
    → (k : ℕ) × ((id + 2 - sid) / 2 ≡ suc k) × (id ≡ sid + 2 * k)
parity_rounds server sid id a b le = ((id - sid) / 2, ground arith, ground arith)
parity_rounds client sid id a b le = ((id - sid) / 2, ground arith, ground arith)

module _ {S : Type 0} where
  -- The stream was opened, and is the highest one.
  abbrev Opened : ℕ → StreamsMap S → StreamsMap S × Option Error → Type 0
  Opened id m r =
      (r.1 ≡ some too_many_open_streams)
      ⊎ ((r.1 ≡ none)
          × (lookup id r.0.streams ≡ some (m.new_stream id))
          × (r.0.highest_stream_opened_by_peer ≡ id)
          × (r.0.perspective ≡ m.perspective)
          × (r.0.new_stream ≡ m.new_stream))

  lookup-inserted : (id : ℕ) (s : S) (m : List (ℕ × S)) → lookup id (insert id s m) ≡ some s
  lookup-inserted id s m = lookup-insert id id s m ∙ ground arith

  open_remote_stream-Opened :
      (limits : Limits) (id : ℕ) (m : StreamsMap S)
      → is_own m.perspective id ≡ false
      → m.highest_stream_opened_by_peer < id
      → id + max_new_stream_id_delta < 2 ^ 32
      → Inv m
      → Opened id m (open_remote_stream limits id m)
  unfolding open_remote_stream put_stream
  open_remote_stream-Opened limits id m other lt small v =
      let missing = fresh_key id m other lt v in
      let higher : ltb m.highest_stream_opened_by_peer id ≡ true = ground (arith, lt) in
      let near : ltb ((id + max_new_stream_id_delta) % 2 ^ 32) m.highest_stream_opened_by_peer
          ≡ false =
        ground (arith, lt) in
      let there = lookup-inserted id (m.new_stream id) m.streams in
      elim (Bool-cases (leb limits.max_incoming_streams m.num_incoming_streams)) [
        | inl full ↦ rw (open_remote_stream, full) (inl refl)
        | inr room ↦ elim (Bool-cases (is_server m.perspective)) [
          | inl serving ↦
              rw (open_remote_stream, room, near, serving, higher, missing)
                (inr (refl, there, refl, refl, refl))
          | inr calling ↦
              rw (open_remote_stream, room, near, calling, higher, missing)
                (inr (refl, there, refl, refl, refl))
        ]
      ]

  -- The loop, with at least one round.
  open_up_to-Opened :
      (limits : Limits) (rounds sid id : ℕ) (m : StreamsMap S)
      → id ≡ sid + 2 * rounds
      → is_own m.perspective sid ≡ false
      → m.highest_stream_opened_by_peer < sid
      → id + max_new_stream_id_delta < 2 ^ 32
      → Inv m
      → Opened id m (open_up_to limits (suc rounds) sid m)
  unfolding open_up_to
  open_up_to-Opened limits zero sid id m last other lt small v =
      let here : id ≡ sid = omega arith in
      elim (open_remote_stream-Opened limits sid m other lt (omega arith) v) [
        | inl full ↦ rw (open_up_to, full) (inl refl)
        | inr (fine, there, highest, pers, make) ↦
            rw (open_up_to, fine, here) (inr (refl, there, highest, pers, make))
      ]
  open_up_to-Opened limits (suc rounds) sid id m last other lt small v =
      let opened = (open_remote_stream limits sid m).0 in
      let w = open_remote_stream-Inv limits sid m other lt v in
      elim (open_remote_stream-Opened limits sid m other lt (omega arith) v) [
        | inl full ↦ rw (open_up_to, full) (inl refl)
        | inr (fine, there, highest, pers, make) ↦
            let rest =
              open_up_to-Opened limits rounds (sid + 2) id opened (omega arith)
                (rw pers (is_own-next m.perspective sid other)) (omega arith) small w in
            rw (open_up_to, fine)
              (carry (open_up_to limits (suc rounds) (sid + 2) opened) opened rest pers make)
      ]
    where
      carry :
          (r : StreamsMap S × Option Error) (k : StreamsMap S)
          → Opened id k r
          → k.perspective ≡ m.perspective
          → k.new_stream ≡ m.new_stream
          → Opened id m r
      carry r k (inl full) pers make = inl full
      carry r k (inr (fine, there, highest, pers', make')) pers make =
          inr (
            fine,
            there ∙ ap (λ (f : ℕ → S). some (f id)) make,
            highest,
            pers' ∙ pers,
            make' ∙ make,
          )

  first_below :
      (m : StreamsMap S) (id : ℕ)
      → is_own m.perspective id ≡ false
      → m.highest_stream_opened_by_peer < id
      → Inv m
      → first_to_open m ≤ id
  first_below m id other lt v = go m.perspective m.highest_stream_opened_by_peer other lt v.peer
    where
      go :
          (pers : Perspective) (highest : ℕ)
          → is_own pers id ≡ false
          → highest < id
          → (highest ≡ 0) ⊎ (is_own pers highest ≡ false)
          → (if (highest + 2) == 2 && is_server pers then 1 else highest + 2) ≤ id
      go server highest other lt peer = ground arith
      go client highest other lt peer = ground arith

  -- The result of the loop, where it did not fail.
  Opened-all :
      (id : ℕ) (m : StreamsMap S) (r : StreamsMap S × Option Error)
      → Opened id m r
      → r.1 ≡ none
      → (lookup id r.0.streams ≡ some (m.new_stream id)) × (r.0.highest_stream_opened_by_peer ≡ id)
  Opened-all id m r (inl full) fine = cc
  Opened-all id m r (inr (_, there, highest, _, _)) fine = (there, highest)

  -- GetOrOpenStream of a stream of the peer above those that it opened so far, with a limit below
  -- 2 ^ 32 and an ID below 2 ^ 32 - 4000. All the streams of the peer from the first that it did not open
  -- up to this one are wanted. They are opened in order: on the server as many as the limit
  -- leaves room for, on the client all, or none if the limit is reached. If all are opened, the
  -- result is the new stream with this ID, which is the highest of the peer; if not, the error is that
  -- too many streams are open.
  pub get_or_open_stream-opens :
      (limits : Limits) (id : ℕ) (m : StreamsMap S)
      → limits.max_incoming_streams < 2 ^ 32
      → is_own m.perspective id ≡ false
      → m.highest_stream_opened_by_peer < id
      → id + max_new_stream_id_delta < 2 ^ 32
      → Inv m
      → let r = get_or_open_stream limits id m in
        let wanted = (id + 2 - first_to_open m) / 2 in
        let count =
          openable m.perspective limits.max_incoming_streams m.num_incoming_streams wanted in
        (r.0.open_streams ≡ m.open_streams ++ ids_from (first_to_open m) count)
        × (((count < wanted) × (r.1 ≡ err too_many_open_streams))
            ⊎ ((count ≡ wanted)
                × (r.1 ≡ ok (some (m.new_stream id)))
                × (r.0.highest_stream_opened_by_peer ≡ id)))
  unfolding get_or_open_stream
  get_or_open_stream-opens limits id m word other lt small v =
      let missing = fresh_key id m other lt v in
      let (first_other, first_lt) = first_above m v in
      let (k, rounds, last) =
        parity_rounds m.perspective (first_to_open m) id first_other other
          (first_below m id other lt v) in
      let above : leb id m.highest_stream_opened_by_peer ≡ false = ground (arith, lt) in
      let wanted = (id + 2 - first_to_open m) / 2 in
      let count =
        openable m.perspective limits.max_incoming_streams m.num_incoming_streams wanted in
      let result : Opened id m (open_up_to limits wanted (first_to_open m) m) =
        rw rounds
          (open_up_to-Opened limits k (first_to_open m) id m last first_other first_lt small v) in
      let (listed, error) =
        open_up_to-openable limits wanted (first_to_open m) m word first_other first_lt
          (omega arith) v in
      let most =
        openable-le m.perspective limits.max_incoming_streams m.num_incoming_streams wanted in
      let loop = open_up_to limits wanted (first_to_open m) m in
      elim (Bool-cases (ltb count wanted)) [
        | inl few ↦
            let failed = rw few at error in
            rw (get_or_open_stream, missing, other, above, failed)
              (listed, inl (ground arith, refl))
        | inr all ↦
            let fine = rw all at error in
            let (there, highest) = Opened-all id m loop result fine in
            rw (get_or_open_stream, missing, other, above, fine)
              (listed, inr (ground arith, ap ok there, highest))
      ]
