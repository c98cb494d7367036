-- ===== src/Streams/Tests.antt =====
-- src/sa-ecf/streams_map.go: the streams of a server.
use ivsh.Common.{ℕ, ◌/◌, ◌-◌, ◌<◌, List, [], ◌∷◌, ◌++◌, none, some, arith, ◌≡◌, ◌⊎◌, refl}
use ivsh.Streams.Map.{
  StreamsMap, too_many_open_streams, server, Limits, new_streams_map, get_or_open_stream,
  open_stream, first_to_open,
}
use ivsh.Common.Result.{ok, err}
use ivsh.Streams.Walk.{remove_stream, accept_stream}
use ivsh.Streams.Invariant.{Inv}
use ivsh.Streams.Room.{ids_from, openable}
use ivsh.Streams.Opened.{get_or_open_stream-opens}
use ivsh.Streams.Steps.{Event, opens, gets, accepts, removes, run, run-Consistent}

abbrev limits : Limits
limits = record { max_incoming_streams = 100; max_outgoing_streams = 100 }

-- A stream is its ID.
abbrev make : ℕ → ℕ
make id = id

abbrev events : List (Event ℕ)
events = gets limits 5 ∷ accepts ∷ opens limits ∷ removes 3 ∷ gets limits 3 ∷ []

run-Consistent_example : Inv (run events (new_streams_map make server none))
run-Consistent_example = run-Consistent make server none events (omega arith)

opened : (run events (new_streams_map make server none)).open_streams ≡ 1 ∷ 5 ∷ 2 ∷ []
unfolding run get_or_open_stream remove_stream open_stream accept_stream new_streams_map
opened = refl

abbrev started : StreamsMap ℕ
started = run [] (new_streams_map make server none)

started_by_peer : (started.perspective ≡ server) × (started.highest_stream_opened_by_peer ≡ 0)
unfolding run new_streams_map
started_by_peer = (refl, refl)

get_or_open_stream-opens_example :
    let r = get_or_open_stream limits 7 started in
    let wanted = (9 - first_to_open started) / 2 in
    let count = openable started.perspective 100 started.num_incoming_streams wanted in
    (r.0.open_streams ≡ started.open_streams ++ ids_from (first_to_open started) count)
    × (((count < wanted) × (r.1 ≡ err too_many_open_streams))
        ⊎ ((count ≡ wanted)
            × (r.1 ≡ ok (some (started.new_stream 7)))
            × (r.0.highest_stream_opened_by_peer ≡ 7)))
get_or_open_stream-opens_example =
    get_or_open_stream-opens limits 7 started (omega arith) (rw started_by_peer.0 refl)
      (rw started_by_peer.1 (omega arith)) (omega arith)
      (run-Consistent make server none [] (omega arith))

-- With room for two streams, the first two of the four are opened.
abbrev two : Limits
two = record { max_incoming_streams = 2; max_outgoing_streams = 100 }

two_opened : (get_or_open_stream two 7 started).0.open_streams ≡ 1 ∷ 3 ∷ []
unfolding get_or_open_stream run new_streams_map
two_opened = refl

two_too_many : (get_or_open_stream two 7 started).1 ≡ err too_many_open_streams
unfolding get_or_open_stream run new_streams_map
two_too_many = refl

two_openable : ids_from 1 (openable server 2 0 4) ≡ 1 ∷ 3 ∷ []
two_openable = refl
