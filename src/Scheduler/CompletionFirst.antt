-- ===== src/Scheduler/CompletionFirst.antt =====
-- src/sa-ecf/path_scheduler.go: selectPathEarliestCompletionFirst. Durations are numbers of
-- nanoseconds; uint64 products and sums wrap around.
pub mod Best
use ivsh.Common.{
  ℕ, ◌+◌, ◌^◌, ◌%◌, ◌≤◌, ◌<◌, ◌≡◌, List, [], ◌∷◌, Bool, true, false, not, ◌&&◌, ◌||◌, Option, none,
  some, ltb, leb, ◌==◌, length, if◌then◌else◌, add64, mul64,
}
use ivsh.Common.Result.{Result, ok, err, ◌>>=◌}
use ivsh.Scheduler.Paths.{
  NetworkPath, Panic, Scheduler, initial_path_id, quota_of, reroute, single_path, touch,
}
use ivsh.Scheduler.LowLatency.{is_some, is_unprobed_worse}

abbrev beta : ℕ
beta = 4

pub record Selection : Type 0 where
  pub quotas : List (ℕ × ℕ)
  pub best : Option NetworkPath
  pub best_path_id : ℕ
  pub lower_rtt : ℕ
  pub second_best : Option NetworkPath
  pub second_lower_rtt : ℕ

-- The loop looks at a path even if it cannot send.
unfoldable pub is_usable : NetworkPath → Bool
is_usable p = not p.potentially_failed && not (p.path_id == initial_path_id)

-- "Update second best available path"
unfoldable pub update_second : NetworkPath → Selection → Selection
update_second p s =
    if ((s.second_lower_rtt == 0) || ltb p.smoothed_rtt s.second_lower_rtt) && p.sending_allowed
    then record s { second_best = some p; second_lower_rtt = p.smoothed_rtt }
    else s

unfoldable pub update_best : NetworkPath → Selection → Selection
update_best p s = record s { best = some p; best_path_id = p.path_id; lower_rtt = p.smoothed_rtt }

unfoldable pub round : NetworkPath → Selection → Selection
unfolding update_second update_best
round p s =
    let current = p.smoothed_rtt in
    if not (is_usable p)
    then s
    else if not (s.lower_rtt == 0) && (current == 0)
    then s
    else let s' = record s {
      quotas = if current == 0 then touch p.path_id s.quotas else s.quotas;
    } in
      if (current == 0) && is_unprobed_worse p s'.quotas s.best s.best_path_id
      then s'
      else if leb s.lower_rtt current
      then (if not (current == 0) && not (s.lower_rtt == 0) && is_some s.best
          then update_second p s'
          else update_best p (update_second p s'))
      else update_best p s'

unfoldable pub rounds : List NetworkPath → Selection → Selection
unfolding round
rounds [] s = s
rounds (p ∷ ps) s = rounds ps (round p s)

-- The bytes that the streams wait to write.
abbrev queue_size : List ℕ → ℕ → ℕ
queue_size [] n = n
queue_size (len ∷ lens) n = queue_size lens (add64 n len)

-- Whether the second best path is worth sending on now, or the best one worth waiting for.
unfoldable pub decide_second :
    List ℕ → NetworkPath → ℕ → NetworkPath → ℕ → Scheduler → Scheduler × Option NetworkPath
decide_second lens best lower_rtt second second_lower_rtt sch =
    let queue = queue_size lens 0 in
    let cwnd_best = best.congestion_window in
    let cwnd_second = second.congestion_window in
    let delta =
      if ltb best.mean_deviation second.mean_deviation
      then second.mean_deviation
      else best.mean_deviation in
    let x_best = if ltb cwnd_best queue then cwnd_best else queue in
    let lhs = mul64 lower_rtt (add64 x_best cwnd_best) in
    let rhs = mul64 cwnd_best (add64 second_lower_rtt delta) in
    if ltb (mul64 beta lhs) (add64 (mul64 beta rhs) (mul64 sch.waiting rhs))
    then (let x_second = if ltb queue cwnd_second then cwnd_second else queue in
        let lhs_second = mul64 second_lower_rtt x_second in
        let rhs_second = mul64 cwnd_second (add64 (mul64 2 lower_rtt) delta) in
        if ltb rhs_second lhs_second
        then (record sch { waiting = 1 }, none)
        else (sch, some second))
    else (record sch { waiting = 0 }, some second)

-- What follows the loop.
unfoldable pub choose : Bool → List ℕ → Selection → Scheduler → Scheduler × Option NetworkPath
unfolding decide_second
choose retransmits lens s sch = elim s.best [
  | none ↦ (sch, s.second_best)
  | some best ↦
      if retransmits || best.sending_allowed then (sch, some best) else elim s.second_best [
        | none ↦ (sch, none)
        | some second ↦ decide_second lens best s.lower_rtt second s.second_lower_rtt sch
      ]
]

abbrev pub start : List (ℕ × ℕ) → Selection
start quotas = record {
  quotas = quotas;
  best = none;
  best_path_id = 255;
  lower_rtt = 0;
  second_best = none;
  second_lower_rtt = 0;
}

abbrev pub loop_or :
    Option NetworkPath
    → Bool
    → List ℕ
    → List NetworkPath
    → Scheduler
    → Scheduler × Option NetworkPath
loop_or (some p) retransmits lens paths sch = (sch, some p)
loop_or none retransmits lens paths sch =
    let s = rounds paths (start sch.quotas) in
    choose retransmits lens s (record sch { quotas = s.quotas })

-- `lens` are the lengths of the data that the streams have for writing.
unfoldable pub select_path_earliest_completion_first :
    Bool
    → Bool
    → Option NetworkPath
    → List ℕ
    → List NetworkPath
    → Scheduler
    → Result Panic (Scheduler × Option NetworkPath)
unfolding rounds choose
select_path_earliest_completion_first retransmits stream_retransmits from lens paths sch =
    if leb (length paths) 1 then (do p ← single_path retransmits paths; ok (sch, p)) else do
      other ← reroute retransmits stream_retransmits sch.quotas from paths
      ok (loop_or other retransmits lens paths sch)
