-- ===== src/Scheduler/RoundRobin.antt =====
-- src/sa-ecf/path_scheduler.go: selectPathRoundRobin.
pub mod Fair
use ivsh.Common.{
  ℕ, ◌-◌, ◌^◌, List, [], ◌∷◌, Bool, Option, none, some, ltb, leb, length, if◌then◌else◌,
}
use ivsh.Common.Result.{Result, ok, ◌>>=◌}
use ivsh.Scheduler.Paths.{
  NetworkPath, Panic, Scheduler, is_considered, quota_of, single_path, touch,
}

pub record Selection : Type 0 where
  pub quotas : List (ℕ × ℕ)
  pub selected : Option NetworkPath
  pub lower_quota : ℕ

unfoldable pub round : Bool → NetworkPath → Selection → Selection
round retransmits p s =
    if is_considered retransmits p
    then (let quotas = touch p.path_id s.quotas in
        let current = quota_of p.path_id s.quotas in
        if ltb current s.lower_quota
        then record { quotas = quotas; selected = some p; lower_quota = current }
        else record s { quotas = quotas })
    else s

unfoldable pub rounds : Bool → List NetworkPath → Selection → Selection
unfolding round
rounds retransmits [] s = s
rounds retransmits (p ∷ ps) s = rounds retransmits ps (round retransmits p s)

-- `^uint(0)`
abbrev pub max_uint : ℕ
max_uint = 2 ^ 64 - 1

unfoldable pub select_path_round_robin :
    Bool → List NetworkPath → Scheduler → Result Panic (Scheduler × Option NetworkPath)
unfolding rounds
select_path_round_robin retransmits paths sch =
    if leb (length paths) 1
    then (do p ← single_path retransmits paths; ok (sch, p))
    else (let s =
          rounds retransmits paths
            (record { quotas = sch.quotas; selected = none; lower_quota = max_uint }) in
        ok (record sch { quotas = s.quotas }, s.selected))
