-- ===== src/Scheduler/Tests.antt =====
-- src/sa-ecf/path_scheduler.go: runs of the schedulers.
use ivsh.Common.{
  Among, ℕ, ◌≤◌, ◌<◌, ◌≡◌, refl, arith, List, [], ◌∷◌, Bool, true, false, Option, none, some, All,
}
use ivsh.Common.Result.{ok}
use ivsh.Scheduler.Paths.{NetworkPath, Scheduler, is_considered, quota_of, reroute, touch}
use ivsh.Scheduler.RoundRobin
use ivsh.Scheduler.RoundRobin.{select_path_round_robin}
use ivsh.Scheduler.RoundRobin.Fair.{select_path_round_robin-fair}
use ivsh.Scheduler.LowLatency
use ivsh.Scheduler.LowLatency.{select_path_low_latency}
use ivsh.Scheduler.LowLatency.Fastest.{NoWorse, select_path_low_latency-fastest}
use ivsh.Scheduler.CompletionFirst
use ivsh.Scheduler.CompletionFirst.{
  choose, decide_second, is_usable, select_path_earliest_completion_first, update_best,
  update_second,
}
use ivsh.Scheduler.CompletionFirst.Best.{Outcome, select_path_earliest_completion_first-Outcome}

abbrev path : ℕ → ℕ → Bool → NetworkPath
path id rtt allowed = record {
  path_id = id;
  sending_allowed = allowed;
  potentially_failed = false;
  smoothed_rtt = rtt;
  mean_deviation = 5;
  congestion_window = 1000;
}

-- The fastest path is blocked.
abbrev paths : List NetworkPath
paths = path 0 10 true ∷ path 1 24 true ∷ path 3 20 true ∷ path 5 10 false ∷ []

abbrev scheduler : Scheduler
scheduler = record { quotas = (1, 7) ∷ (3, 4) ∷ []; waiting = 0 }

round_robin : select_path_round_robin false paths scheduler ≡ ok (scheduler, some (path 3 20 true))
unfolding select_path_round_robin RoundRobin.rounds RoundRobin.round is_considered quota_of touch
round_robin = refl

direct : reroute false false scheduler.quotas none paths ≡ ok none
unfolding reroute
direct = refl

low_latency :
    select_path_low_latency false false none paths scheduler ≡ ok (scheduler, some (path 3 20 true))
unfolding select_path_low_latency LowLatency.rounds LowLatency.round is_considered quota_of touch
    reroute
low_latency = refl

-- Path 1 is seen first and is the second best. Path 3 is the best until path 5 displaces it, and does
-- not become the second best, although it is faster than path 1.
completion_first :
    select_path_earliest_completion_first false false none [] paths scheduler
    ≡ ok (scheduler, some (path 1 24 true))
unfolding select_path_earliest_completion_first CompletionFirst.rounds CompletionFirst.round
    is_usable update_best update_second quota_of touch reroute choose decide_second
completion_first = refl

quotas_small : All (λ p. quota_of p.path_id scheduler.quotas < RoundRobin.max_uint) paths
unfolding quota_of
quotas_small = (omega arith, (omega arith, (omega arith, (omega arith, tt))))

select_path_round_robin-fair_example :
    (sch' : Scheduler) × (selected : Option NetworkPath) × (select_path_round_robin false paths
        scheduler
      ≡ ok (sch', selected))
    × ((id : ℕ) → quota_of id sch'.quotas ≡ quota_of id scheduler.quotas)
    × (selected ≡ none → All (λ q. is_considered false q ≡ false) paths)
    × ((p : NetworkPath)
        → selected ≡ some p
        → Among p paths
          × (is_considered false p ≡ true)
          × All
              (λ q.
                is_considered false q ≡ true
                → quota_of p.path_id scheduler.quotas ≤ quota_of q.path_id scheduler.quotas)
              paths)
select_path_round_robin-fair_example =
    select_path_round_robin-fair false paths scheduler (omega arith) quotas_small

select_path_low_latency-fastest_example :
    (sch' : Scheduler) × (selected : Option NetworkPath) × (select_path_low_latency false false none
        paths scheduler
      ≡ ok (sch', selected))
    × ((id : ℕ) → quota_of id sch'.quotas ≡ quota_of id scheduler.quotas)
    × (selected ≡ none → All (λ q. is_considered false q ≡ false) paths)
    × ((p : NetworkPath)
        → selected ≡ some p
        → Among p paths
          × (is_considered false p ≡ true)
          × All (λ q. is_considered false q ≡ true → NoWorse scheduler.quotas p q) paths)
select_path_low_latency-fastest_example =
    select_path_low_latency-fastest false false none paths scheduler (omega arith) direct

select_path_earliest_completion_first-Outcome_example :
    (sch' : Scheduler) × (best : Option NetworkPath) × (selected : Option NetworkPath)
    × (select_path_earliest_completion_first false false none [] paths scheduler
        ≡ ok (sch', selected))
    × Outcome false scheduler.quotas paths best selected
select_path_earliest_completion_first-Outcome_example =
    select_path_earliest_completion_first-Outcome false false none [] paths scheduler (omega arith)
      direct
