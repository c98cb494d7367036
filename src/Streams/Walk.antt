-- ===== src/Streams/Walk.antt =====
-- src/sa-ecf/streams_map.go: accepting and removing streams, and the loops over the open streams.
use ivsh.Common.{
  ℕ, zero, suc, ◌+◌, ◌-◌, ◌%◌, ◌^◌, List, [], ◌∷◌, Bool, true, false, ◌||◌, Option, none, some, ltb,
  ◌==◌, if◌then◌else◌, length, get_elem?,
}
use ivsh.Common.Assoc.{lookup, insert, erase}
use ivsh.Common.Result.{Result, ok, err}
use ivsh.Streams.Map.{
  StreamsMap, Limits, Error, too_many_open_streams, closed_with, map_access, non_existing_stream,
  index_out_of_range, open_stream_impl,
}

-- What a blocking method does in a step: it goes on to wait for its condition, or it returns.
pub data Outcome (A : Type 0) : Type 0 where
  waits : Outcome A
  returns : A → Outcome A

-- Go's errors are compared as values.
abbrev pub is_too_many : Error → Bool
is_too_many too_many_open_streams = true
is_too_many _ = false

-- What a function that the loops call answers: whether to go on, or an error.
abbrev pub Answer : Type 0
Answer = Result Error Bool

abbrev is_map_access : Error → Bool
is_map_access map_access = true
is_map_access _ = false

-- The position of an ID in the slice, which is its length if it is not there.
abbrev pub index_of : ℕ → List ℕ → ℕ
index_of id [] = 0
index_of id (i ∷ ids) = if i == id then 0 else suc (index_of id ids)

abbrev pub delete_at : ℕ → List ℕ → List ℕ
delete_at n [] = []
delete_at zero (i ∷ ids) = ids
delete_at (suc n) (i ∷ ids) = i ∷ delete_at n ids

module _ {S : Type 0} where
  unfoldable pub open_stream_sync : Limits → StreamsMap S → StreamsMap S × Outcome (Result Error ℕ)
  unfolding open_stream_impl
  open_stream_sync limits m = elim m.close_err [
    | some e ↦ (m, returns (err (closed_with e)))
    | none ↦ elim (open_stream_impl limits m).1 [
      | ok id ↦ ((open_stream_impl limits m).0, returns (ok id))
      | err e ↦ ((open_stream_impl limits m).0, (if is_too_many e then waits else returns (err e)))
    ]
  ]

  unfoldable pub accept_stream : StreamsMap S → StreamsMap S × Outcome (Result Error S)
  accept_stream m = elim m.close_err [
    | some e ↦ (m, returns (err (closed_with e)))
    | none ↦ elim (lookup m.next_stream_to_accept m.streams) [
      | none ↦ (m, waits)
      | some s ↦ (
        record m { next_stream_to_accept = (m.next_stream_to_accept + 2) % 2 ^ 32 },
        returns (ok s),
      )
    ]
  ]

  -- A counter that goes below 0 wraps around.
  abbrev pub count_removed : ℕ → StreamsMap S → StreamsMap S
  count_removed id m =
      if id % 2 == 0
      then record m { num_outgoing_streams = (m.num_outgoing_streams + (2 ^ 32 - 1)) % 2 ^ 32 }
      else record m { num_incoming_streams = (m.num_incoming_streams + (2 ^ 32 - 1)) % 2 ^ 32 }

  unfoldable pub remove_stream : ℕ → StreamsMap S → StreamsMap S × Option Error
  remove_stream id m = elim (lookup id m.streams) [
    | none ↦ (m, some non_existing_stream)
    | some s ↦
        let m1 = count_removed id m in
        let i = index_of id m1.open_streams in
        (
          record m1 {
            streams = erase id m1.streams;
            open_streams = delete_at i m1.open_streams;
            round_robin_index =
                if ltb i (length m1.open_streams)
                then (if ltb i m1.round_robin_index
                    then (m1.round_robin_index - 1)
                    else m1.round_robin_index)
                else m1.round_robin_index;
          },
          none,
        )
  ]

  -- The open streams are cancelled by `cancel`.
  abbrev pub cancel_all : (S → S) → List ℕ → List (ℕ × S) → List (ℕ × S)
  cancel_all cancel [] streams = streams
  cancel_all cancel (id ∷ ids) streams = elim (lookup id streams) [
    | none ↦ cancel_all cancel ids streams
    | some s ↦ cancel_all cancel ids (insert id (cancel s) streams)
  ]

  unfoldable pub close_with_error : (ℕ → S → S) → ℕ → StreamsMap S → StreamsMap S
  close_with_error cancel e m = record m {
    close_err = some e;
    streams = cancel_all (cancel e) m.open_streams m.streams;
  }

  -- The function that the loops call changes a state of its own.
  module _ {W : Type 0} (fn : S → W → W × Answer) where
    unfoldable pub iterate_func : ℕ → StreamsMap S → W → W × Answer
    iterate_func id m w = elim (lookup id m.streams) [
      | none ↦ (w, err map_access)
      | some s ↦ fn s w
    ]

    -- The loop over the copy of the open streams.
    unfoldable pub iterate_over : List ℕ → StreamsMap S → W → W × Option Error
    unfolding iterate_func
    iterate_over [] m w = (w, none)
    iterate_over (id ∷ ids) m w = elim (iterate_func id m w).1 [
      | err e ↦ ((iterate_func id m w).0, some e)
      | ok goes_on ↦ elim goes_on [
        | false ↦ ((iterate_func id m w).0, none)
        | true ↦ iterate_over ids m (iterate_func id m w).0
      ]
    ]

    unfoldable pub iterate : StreamsMap S → W → W × Option Error
    unfolding iterate_over
    iterate m w = iterate_over m.open_streams m w

    -- The loop of the round robin, with the rounds left, from round `i` on.
    unfoldable pub round_robin : ℕ → ℕ → ℕ → StreamsMap S → W → (StreamsMap S × W) × Option Error
    unfolding iterate_func
    round_robin zero i start m w = ((m, w), none)
    round_robin (suc rounds) i start m w =
        let n = length m.streams in
        elim (get_elem? m.open_streams ((i + start) % n)) [
          | none ↦ ((m, w), some index_out_of_range)
          | some id ↦
              if (id == 1) || (id == 3)
              then round_robin rounds (i + 1) start m w
              else let m1 = record m { round_robin_index = (m.round_robin_index + 1) % n } in
                elim (iterate_func id m w).1 [
                  | err e ↦ ((m, (iterate_func id m w).0), some e)
                  | ok goes_on ↦ elim goes_on [
                    | false ↦ ((m1, (iterate_func id m w).0), none)
                    | true ↦ round_robin rounds (i + 1) start m1 (iterate_func id m w).0
                  ]
                ]
        ]

    -- The streams 1 and 3 come first.
    unfoldable pub first_streams : List ℕ → StreamsMap S → W → W × Result Error Bool
    unfolding iterate_func
    first_streams [] m w = (w, ok true)
    first_streams (id ∷ ids) m w = elim (iterate_func id m w).1 [
      | err e ↦
          if is_map_access e
          then first_streams ids m (iterate_func id m w).0
          else ((iterate_func id m w).0, err e)
      | ok goes_on ↦ elim goes_on [
        | false ↦ ((iterate_func id m w).0, ok false)
        | true ↦ first_streams ids m (iterate_func id m w).0
      ]
    ]

    unfoldable pub round_robin_iterate : StreamsMap S → W → (StreamsMap S × W) × Option Error
    unfolding first_streams round_robin
    round_robin_iterate m w =
        let first = first_streams (1 ∷ 3 ∷ []) m w in
        elim first.1 [
          | err e ↦ ((m, first.0), some e)
          | ok goes_on ↦ elim goes_on [
            | false ↦ ((m, first.0), none)
            | true ↦ round_robin (length m.streams) 0 m.round_robin_index m first.0
          ]
        ]
