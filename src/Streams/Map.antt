-- ===== src/Streams/Map.antt =====
-- src/sa-ecf/streams_map.go: the state, and the opening and closing of streams. The mutex makes each
-- method one step; a stream is any value, made by the function that the session passes. A stream ID
-- that is looked for is below 2 ^ 32 - 2, so that the IDs of the loop do not wrap around.
use ivsh.Common.{
  ℕ, zero, suc, ◌+◌, ◌-◌, ◌/◌, ◌%◌, ◌^◌, List, [], ◌∷◌, ◌++◌, Bool, true, false, ◌&&◌, Option, none,
  some, ltb, leb, ◌==◌, if◌then◌else◌,
}
use ivsh.Common.Assoc.{lookup, insert}
use ivsh.Common.Result.{Result, ok, err}

pub data Perspective : Type 0 where
  server client : Perspective

-- An error that the map is closed with is a number.
pub data Error : Type 0 where
  map_access too_many_open_streams invalid_stream_id stream_exists non_existing_stream : Error
  index_out_of_range : Error
  closed_with : ℕ → Error

-- What the connection parameters answer during an operation.
pub record Limits : Type 0 where
  pub max_incoming_streams : ℕ
  pub max_outgoing_streams : ℕ

-- `scheduled` are the streams that were handed to the stream scheduler, if there is one.
pub record StreamsMap (S : Type 0) : Type 0 where
  pub perspective : Perspective
  pub streams : List (ℕ × S)
  pub open_streams : List ℕ
  pub round_robin_index : ℕ
  pub next_stream : ℕ
  pub highest_stream_opened_by_peer : ℕ
  pub close_err : Option ℕ
  pub next_stream_to_accept : ℕ
  pub new_stream : ℕ → S
  pub num_outgoing_streams : ℕ
  pub num_incoming_streams : ℕ
  pub scheduled : Option (List ℕ)

abbrev pub max_new_stream_id_delta : ℕ
max_new_stream_id_delta = 4000

abbrev pub is_server : Perspective → Bool
is_server server = true
is_server client = false

abbrev pub is_some : {A : Type 0} → Option A → Bool
is_some none = false
is_some (some x) = true

abbrev pub add_node : ℕ → Option (List ℕ) → Option (List ℕ)
add_node id none = none
add_node id (some ids) = some (ids ++ (id ∷ []))

-- A stream that this side opens has an even ID on the server and an odd one on the client.
abbrev pub is_own : Perspective → ℕ → Bool
is_own server id = id % 2 == 0
is_own client id = id % 2 == 1

module _ {S : Type 0} where
  unfoldable pub new_streams_map : (ℕ → S) → Perspective → Option (List ℕ) → StreamsMap S
  new_streams_map make pers scheduler = record {
    perspective = pers;
    streams = [];
    open_streams = [];
    round_robin_index = 0;
    next_stream = if is_server pers then 2 else 1;
    highest_stream_opened_by_peer = 0;
    close_err = none;
    next_stream_to_accept = if is_server pers then 1 else 2;
    new_stream = make;
    num_outgoing_streams = 0;
    num_incoming_streams = 0;
    scheduled = scheduler;
  }

  -- The ID is that of the stream. The callers ignore the error.
  unfoldable pub put_stream : ℕ → S → StreamsMap S → StreamsMap S × Option Error
  put_stream id s m = if is_some (lookup id m.streams) then (m, some stream_exists) else (
    record m {
      streams = insert id s m.streams;
      open_streams = m.open_streams ++ (id ∷ []);
      scheduled = add_node id m.scheduled;
    },
    none,
  )

  -- The counters: the server's peer opens odd IDs, the client's peer even ones.
  abbrev pub count_odd : StreamsMap S → StreamsMap S
  count_odd m = record m { num_incoming_streams = (m.num_incoming_streams + 1) % 2 ^ 32 }

  abbrev pub count_even : StreamsMap S → StreamsMap S
  count_even m = record m { num_outgoing_streams = (m.num_outgoing_streams + 1) % 2 ^ 32 }

  unfoldable pub open_remote_stream : Limits → ℕ → StreamsMap S → StreamsMap S × Option Error
  unfolding put_stream
  open_remote_stream limits id m =
      if leb limits.max_incoming_streams m.num_incoming_streams
      then (m, some too_many_open_streams)
      else if ltb ((id + max_new_stream_id_delta) % 2 ^ 32) m.highest_stream_opened_by_peer
      then (m, some invalid_stream_id)
      else let m1 = if is_server m.perspective then count_odd m else count_even m in
        let m2 = record m1 {
          highest_stream_opened_by_peer =
              if ltb m1.highest_stream_opened_by_peer id
              then id
              else m1.highest_stream_opened_by_peer;
        } in
        ((put_stream id (m2.new_stream id) m2).0, none)

  unfoldable pub open_stream_impl : Limits → StreamsMap S → StreamsMap S × Result Error ℕ
  unfolding put_stream
  open_stream_impl limits m =
      let id = m.next_stream in
      if leb limits.max_outgoing_streams m.num_outgoing_streams
      then (m, err too_many_open_streams)
      else let m1 = if is_server m.perspective then count_even m else count_odd m in
        let m2 = record m1 { next_stream = (m1.next_stream + 2) % 2 ^ 32 } in
        ((put_stream id (m2.new_stream id) m2).0, ok id)

  unfoldable pub open_stream : Limits → StreamsMap S → StreamsMap S × Result Error ℕ
  unfolding open_stream_impl
  open_stream limits m = elim m.close_err [
    | some e ↦ (m, err (closed_with e))
    | none ↦ open_stream_impl limits m
  ]

  -- The loop `for ; sid <= id; sid += 2`, with the rounds left.
  unfoldable pub open_up_to : Limits → ℕ → ℕ → StreamsMap S → StreamsMap S × Option Error
  unfolding open_remote_stream
  open_up_to limits zero sid m = (m, none)
  open_up_to limits (suc rounds) sid m = elim (open_remote_stream limits sid m).1 [
    | some e ↦ ((open_remote_stream limits sid m).0, some e)
    | none ↦ open_up_to limits rounds (sid + 2) (open_remote_stream limits sid m).0
  ]

  -- The stream that the loop begins with.
  abbrev pub first_to_open : StreamsMap S → ℕ
  first_to_open m =
      let sid = m.highest_stream_opened_by_peer + 2 in
      if sid == 2 && is_server m.perspective then 1 else sid

  -- `ok none` is Go's nil: the stream was closed already.
  unfoldable pub get_or_open_stream :
      Limits → ℕ → StreamsMap S → StreamsMap S × Result Error (Option S)
  unfolding open_up_to
  get_or_open_stream limits id m = elim (lookup id m.streams) [
    | some s ↦ (m, ok (some s))
    | none ↦
        if is_own m.perspective id
        then (if leb id m.next_stream then (m, ok none) else (m, err invalid_stream_id))
        else if leb id m.highest_stream_opened_by_peer
        then (m, ok none)
        else let sid = first_to_open m in
          let r = open_up_to limits ((id + 2 - sid) / 2) sid m in
          elim r.1 [ some e ↦ (r.0, err e) | none ↦ (r.0, ok (lookup id r.0.streams)) ]
  ]
