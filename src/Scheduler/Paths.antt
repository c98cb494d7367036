-- ===== src/Scheduler/Paths.antt =====
-- src/sa-ecf/path_scheduler.go: what the schedulers ask of the paths, and the parts that they share.
-- The paths of the session are a list, in the order in which the loop over Go's map visits them; each
-- one is stored under its own `path_id`. A map of quotas reads as 0 where it has no entry.
use ivsh.Common.{
  arith, Option-cases, refl, inl, inr, ◌≡◌, ℕ, List, [], ◌∷◌, Bool, true, false, not, ◌&&◌, ◌||◌,
  Option, none, some, ltb, ◌==◌, if◌then◌else◌,
}
use ivsh.Common.Assoc.{lookup, insert, lookup-insert}
use ivsh.Common.Result.{Result, ok, err}

-- A path with the answers of its packet handler and of its RTT statistics.
pub record NetworkPath : Type 0 where
  pub path_id : ℕ
  pub sending_allowed : Bool
  pub potentially_failed : Bool
  pub smoothed_rtt : ℕ
  pub mean_deviation : ℕ
  pub congestion_window : ℕ

-- Go's panic on a method call on a nil path.
pub data Panic : Type 0 where
  nil_path : Panic

pub record Scheduler : Type 0 where
  pub quotas : List (ℕ × ℕ)
  pub waiting : ℕ

abbrev pub initial_path_id : ℕ
initial_path_id = 0

abbrev or_zero : Option ℕ → ℕ
or_zero none = 0
or_zero (some n) = n

unfoldable pub quota_of : ℕ → List (ℕ × ℕ) → ℕ
quota_of id quotas = or_zero (lookup id quotas)

-- `currentQuota, ok := sch.quotas[pathID]; if !ok { sch.quotas[pathID] = 0 }`
abbrev touch_missing : ℕ → Option ℕ → List (ℕ × ℕ) → List (ℕ × ℕ)
touch_missing id none quotas = insert id 0 quotas
touch_missing id (some n) quotas = quotas

unfoldable pub touch : ℕ → List (ℕ × ℕ) → List (ℕ × ℕ)
touch id quotas = touch_missing id (lookup id quotas) quotas

-- `s.paths[id]`
abbrev pub path_with : ℕ → List NetworkPath → Option NetworkPath
path_with id [] = none
path_with id (p ∷ ps) = if p.path_id == id then some p else path_with id ps

-- With at most one path, that is the initial one.
abbrev single_allowed : Bool → Option NetworkPath → Result Panic (Option NetworkPath)
single_allowed true p = ok p
single_allowed false none = err nil_path
single_allowed false (some p) = ok (if p.sending_allowed then some p else none)

unfoldable pub single_path : Bool → List NetworkPath → Result Panic (Option NetworkPath)
single_path has_retransmission paths =
    single_allowed has_retransmission (path_with initial_path_id paths)

-- The loops pass over a path that cannot send, unless something is retransmitted, over one that is
-- potentially failed and over the initial one.
unfoldable pub is_considered : Bool → NetworkPath → Bool
is_considered has_retransmission p =
    (has_retransmission || p.sending_allowed)
    && not p.potentially_failed
    && not (p.path_id == initial_path_id)

-- What is retransmitted from a path that has not been probed goes to a path that sent less.
abbrev pub less_used : List (ℕ × ℕ) → NetworkPath → List NetworkPath → Option NetworkPath
less_used quotas from [] = none
less_used quotas from (p ∷ ps) =
    if p.path_id == initial_path_id || p.path_id == from.path_id
    then less_used quotas from ps
    else if ltb (quota_of p.path_id quotas) (quota_of from.path_id quotas)
    then some p
    else less_used quotas from ps

abbrev pub reroute_from :
    List (ℕ × ℕ) → Option NetworkPath → List NetworkPath → Result Panic (Option NetworkPath)
reroute_from quotas none paths = err nil_path
reroute_from quotas (some from) paths =
    ok (if from.smoothed_rtt == 0 then less_used quotas from paths else none)

unfoldable pub reroute :
    Bool
    → Bool
    → List (ℕ × ℕ)
    → Option NetworkPath
    → List NetworkPath
    → Result Panic (Option NetworkPath)
reroute has_retransmission has_stream_retransmission quotas from paths =
    if has_retransmission && has_stream_retransmission
    then reroute_from quotas from paths
    else ok none

-- Entering a missing quota changes no quota.
pub quota_of-touch :
    (i j : ℕ) (quotas : List (ℕ × ℕ)) → quota_of j (touch i quotas) ≡ quota_of j quotas
unfolding quota_of touch
quota_of-touch i j quotas = elim (Option-cases (lookup i quotas)) [
  | inl missing ↦ rw missing (ground (arith, lookup-insert i j 0 quotas, missing))
  | inr (n, known) ↦ rw known refl
]
