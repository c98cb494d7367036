-- ===== src/Streams/Operations.antt =====
-- src/sa-ecf/streams_map.go: every operation keeps the invariant.
use ivsh.Common.{
  ℕ, zero, suc, ◌+◌, ◌-◌, ◌/◌, ◌%◌, ◌^◌, ◌≤◌, ◌<◌, ◌≡◌, ◌⊎◌, refl, ◌∙◌, arith, List, true, false,
  ◌&&◌, Option, none, some, ltb, leb, ◌==◌, if◌then◌else◌, inl, inr, Bool-cases, Option-cases,
}
use ivsh.Common.Assoc.{lookup}
use ivsh.Streams.Map.{
  StreamsMap, Perspective, server, client, Limits, Error, is_server, is_own, put_stream,
  open_remote_stream, open_stream_impl, open_up_to, get_or_open_stream, first_to_open,
  max_new_stream_id_delta, is_some,
}
use ivsh.Streams.Lists.{keys, Absent, lookup-Absent, keys-insert}
use ivsh.Streams.Invariant.{Consistent, Inv, own_fresh, peer_fresh, own-Consistent, peer-Consistent}

pub is_own-next :
    (pers : Perspective) (id : ℕ) → is_own pers id ≡ false → is_own pers (id + 2) ≡ false
is_own-next server id other = ground arith
is_own-next client id other = ground arith

module _ {S : Type 0} where
  missing_key :
      (pers : Perspective) (next highest evens odds id : ℕ) (l : List ℕ) (streams : List (ℕ × S))
      → Consistent pers next highest evens odds l (keys streams)
      → Absent id l
      → (lookup id streams ≡ none) × Absent id (keys streams)
  missing_key pers next highest evens odds id l streams v a =
      let a' = rw v.listed at a in (lookup-Absent id streams a', a')

  -- Opening a stream keeps the invariant.
  pub open_stream_impl-Inv :
      (limits : Limits) (m : StreamsMap S)
      → m.next_stream + 2 < 2 ^ 32
      → Inv m
      → Inv (open_stream_impl limits m).0
  unfolding open_stream_impl put_stream
  open_stream_impl-Inv limits m small v =
      let id = m.next_stream in
      let fresh =
        own_fresh m.perspective m.next_stream m.highest_stream_opened_by_peer m.open_streams v.own
          v.opened in
      let (missing, absent) = missing_key _ _ _ _ _ id m.open_streams m.streams v fresh in
      let w =
        own-Consistent m.perspective m.next_stream m.highest_stream_opened_by_peer
          m.num_outgoing_streams m.num_incoming_streams m.open_streams (keys m.streams) small v in
      elim (Bool-cases (leb limits.max_outgoing_streams m.num_outgoing_streams)) [
        | inl full ↦ rw full v
        | inr room ↦ elim (Bool-cases (is_server m.perspective)) [
          | inl serving ↦
              rw (room, serving, missing, keys-insert id (m.new_stream id) m.streams absent)
                (rw serving at w)
          | inr calling ↦
              rw (room, calling, missing, keys-insert id (m.new_stream id) m.streams absent)
                (rw calling at w)
        ]
      ]

  pub open_remote_stream-Inv :
      (limits : Limits) (id : ℕ) (m : StreamsMap S)
      → is_own m.perspective id ≡ false
      → m.highest_stream_opened_by_peer < id
      → Inv m
      → Inv (open_remote_stream limits id m).0
  unfolding open_remote_stream put_stream
  open_remote_stream-Inv limits id m other lt v =
      let fresh =
        peer_fresh m.perspective m.next_stream m.highest_stream_opened_by_peer id m.open_streams
          other lt v.opened in
      let (missing, absent) = missing_key _ _ _ _ _ id m.open_streams m.streams v fresh in
      let w =
        peer-Consistent m.perspective m.next_stream m.highest_stream_opened_by_peer
          m.num_outgoing_streams m.num_incoming_streams id m.open_streams (keys m.streams) other lt
          v in
      let higher : ltb m.highest_stream_opened_by_peer id ≡ true = ground (arith, lt) in
      elim (Bool-cases (leb limits.max_incoming_streams m.num_incoming_streams)) [
        | inl full ↦ rw full v
        | inr room ↦
            elim (Bool-cases
              (ltb ((id + max_new_stream_id_delta) % 2 ^ 32) m.highest_stream_opened_by_peer)) [
                | inl low ↦ rw (room, low) v
                | inr high ↦ elim (Bool-cases (is_server m.perspective)) [
                  | inl serving ↦
                      rw
                        (
                          room,
                          high,
                          serving,
                          higher,
                          missing,
                          keys-insert id (m.new_stream id) m.streams absent,
                        )
                        (rw serving at w)
                  | inr calling ↦
                      rw
                        (
                          room,
                          high,
                          calling,
                          higher,
                          missing,
                          keys-insert id (m.new_stream id) m.streams absent,
                        )
                        (rw calling at w)
                ]
              ]
      ]

  open_remote_stream-after :
      (limits : Limits) (id : ℕ) (m : StreamsMap S)
      → m.highest_stream_opened_by_peer < id
      → ((open_remote_stream limits id m).0.perspective ≡ m.perspective)
        × ((open_remote_stream limits id m).0.highest_stream_opened_by_peer ≤ id)
        × ((open_remote_stream limits id m).0.next_stream ≡ m.next_stream)
  unfolding open_remote_stream put_stream
  open_remote_stream-after limits id m lt =
      let higher : ltb m.highest_stream_opened_by_peer id ≡ true = ground (arith, lt) in
      elim (Bool-cases (leb limits.max_incoming_streams m.num_incoming_streams)) [
        | inl full ↦ rw full (refl, omega arith, refl)
        | inr room ↦
            elim (Bool-cases
              (ltb ((id + max_new_stream_id_delta) % 2 ^ 32) m.highest_stream_opened_by_peer)) [
                | inl low ↦ rw (room, low) (refl, omega arith, refl)
                | inr high ↦ elim (Bool-cases (is_server m.perspective)) [
                  | inl serving ↦ elim (Bool-cases (is_some (lookup id m.streams))) [
                    | inl present ↦
                        rw (room, high, serving, higher, present) (refl, omega arith, refl)
                    | inr missing ↦
                        rw (room, high, serving, higher, missing) (refl, omega arith, refl)
                  ]
                  | inr calling ↦ elim (Bool-cases (is_some (lookup id m.streams))) [
                    | inl present ↦
                        rw (room, high, calling, higher, present) (refl, omega arith, refl)
                    | inr missing ↦
                        rw (room, high, calling, higher, missing) (refl, omega arith, refl)
                  ]
                ]
              ]
      ]

  abbrev pub Keeps : StreamsMap S → StreamsMap S → Type 0
  Keeps m k = Inv k × (k.next_stream ≡ m.next_stream)

  open_up_to-Inv :
      (limits : Limits) (rounds sid : ℕ) (m : StreamsMap S)
      → is_own m.perspective sid ≡ false
      → m.highest_stream_opened_by_peer < sid
      → Inv m
      → Keeps m (open_up_to limits rounds sid m).0
  unfolding open_up_to
  open_up_to-Inv limits zero sid m other lt v = (v, refl)
  open_up_to-Inv limits (suc rounds) sid m other lt v =
      let opened = (open_remote_stream limits sid m).0 in
      let (same, below, next) = open_remote_stream-after limits sid m lt in
      let w = open_remote_stream-Inv limits sid m other lt v in
      let other' : is_own opened.perspective (sid + 2) ≡ false =
        rw same (is_own-next m.perspective sid other) in
      let rest = open_up_to-Inv limits rounds (sid + 2) opened other' (omega arith) w in
      go (open_remote_stream limits sid m).1 (w, next) (rest.0, rest.1 ∙ next)
    where
      go :
          (r : Option Error)
          → Keeps m (open_remote_stream limits sid m).0
          → Keeps m (open_up_to limits rounds (sid + 2) (open_remote_stream limits sid m).0).0
          → let after : StreamsMap S × Option Error = elim r [
            | some e ↦ ((open_remote_stream limits sid m).0, some e)
            | none ↦ open_up_to limits rounds (sid + 2) (open_remote_stream limits sid m).0
          ] in
            Keeps m after.0
      go none w rest = rest
      go (some e) w rest = w

  pub first_above :
      (m : StreamsMap S)
      → Inv m
      → (is_own m.perspective (first_to_open m) ≡ false)
        × (m.highest_stream_opened_by_peer < first_to_open m)
  first_above m v = go m.perspective m.highest_stream_opened_by_peer v.peer
    where
      go :
          (pers : Perspective) (highest : ℕ)
          → (highest ≡ 0) ⊎ (is_own pers highest ≡ false)
          → let sid = if (highest + 2) == 2 && is_server pers then 1 else highest + 2 in
            (is_own pers sid ≡ false) × (highest < sid)
      go server highest peer = ground arith
      go client highest peer = ground arith

  -- Looking up a stream, which opens those of the peer up to it, keeps the invariant.
  pub get_or_open_stream-Inv :
      (limits : Limits) (id : ℕ) (m : StreamsMap S)
      → Inv m
      → Keeps m (get_or_open_stream limits id m).0
  unfolding get_or_open_stream
  get_or_open_stream-Inv limits id m v =
      let sid = first_to_open m in
      let (other, lt) = first_above m v in
      let opened = open_up_to limits ((id + 2 - sid) / 2) sid m in
      let w = open_up_to-Inv limits ((id + 2 - sid) / 2) sid m other lt v in
      elim (Option-cases (lookup id m.streams)) [
        | inr (s, found) ↦ rw (get_or_open_stream, found) (v, refl)
        | inl missing ↦ elim (Bool-cases (is_own m.perspective id)) [
          | inl own ↦ elim (Bool-cases (leb id m.next_stream)) [
            | inl closed ↦ rw (get_or_open_stream, missing, own, closed) (v, refl)
            | inr wrong ↦ rw (get_or_open_stream, missing, own, wrong) (v, refl)
          ]
          | inr peer ↦ elim (Bool-cases (leb id m.highest_stream_opened_by_peer)) [
            | inl closed ↦ rw (get_or_open_stream, missing, peer, closed) (v, refl)
            | inr new ↦ elim (Option-cases opened.1) [
              | inl fine ↦ rw (get_or_open_stream, missing, peer, new, fine) w
              | inr (e, failed) ↦ rw (get_or_open_stream, missing, peer, new, failed) w
            ]
          ]
        ]
      ]
