-- ===== src/Scheduler/LowLatency.antt =====
-- src/sa-ecf/path_scheduler.go: selectPathLowLatency.
pub mod Fastest
use ivsh.Common.{
  ℕ, List, [], ◌∷◌, Bool, true, false, not, ◌&&◌, Option, none, some, ltb, leb, ◌==◌, length,
  if◌then◌else◌,
}
use ivsh.Common.Result.{Result, ok, ◌>>=◌}
use ivsh.Scheduler.Paths.{
  NetworkPath, Panic, Scheduler, is_considered, quota_of, reroute, single_path, touch,
}

pub record Selection : Type 0 where
  pub quotas : List (ℕ × ℕ)
  pub selected : Option NetworkPath
  pub selected_path_id : ℕ
  pub lower_rtt : ℕ

abbrev pub is_some : Option NetworkPath → Bool
is_some none = false
is_some (some p) = true

-- The quotas are read, and entered, only for a path that is not probed.
abbrev pub is_unprobed_worse : NetworkPath → List (ℕ × ℕ) → Option NetworkPath → ℕ → Bool
is_unprobed_worse p quotas selected selected_path_id =
    is_some selected && ltb (quota_of selected_path_id quotas) (quota_of p.path_id quotas)

unfoldable pub round : Bool → NetworkPath → Selection → Selection
round retransmits p s =
    let current = p.smoothed_rtt in
    if not (is_considered retransmits p)
    then s
    else if not (s.lower_rtt == 0) && (current == 0)
    then s
    else let quotas = if current == 0 then touch p.path_id s.quotas else s.quotas in
      if (current == 0) && is_unprobed_worse p quotas s.selected s.selected_path_id
      then record s { quotas = quotas }
      else if not (current == 0)
          && not (s.lower_rtt == 0)
          && is_some s.selected
          && leb s.lower_rtt current
      then s
      else record {
        quotas = quotas;
        selected = some p;
        selected_path_id = p.path_id;
        lower_rtt = current;
      }

unfoldable pub rounds : Bool → List NetworkPath → Selection → Selection
unfolding round
rounds retransmits [] s = s
rounds retransmits (p ∷ ps) s = rounds retransmits ps (round retransmits p s)

abbrev pub start : List (ℕ × ℕ) → Selection
start quotas = record { quotas = quotas; selected = none; selected_path_id = 255; lower_rtt = 0 }

abbrev pub loop_or :
    Option NetworkPath → Bool → List NetworkPath → Scheduler → Scheduler × Option NetworkPath
loop_or (some p) retransmits paths sch = (sch, some p)
loop_or none retransmits paths sch =
    let s = rounds retransmits paths (start sch.quotas) in
    (record sch { quotas = s.quotas }, s.selected)

unfoldable pub select_path_low_latency :
    Bool
    → Bool
    → Option NetworkPath
    → List NetworkPath
    → Scheduler
    → Result Panic (Scheduler × Option NetworkPath)
unfolding rounds
select_path_low_latency retransmits stream_retransmits from paths sch =
    if leb (length paths) 1 then (do p ← single_path retransmits paths; ok (sch, p)) else do
      other ← reroute retransmits stream_retransmits sch.quotas from paths
      ok (loop_or other retransmits paths sch)
