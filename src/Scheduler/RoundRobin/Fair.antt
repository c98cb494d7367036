-- ===== src/Scheduler/RoundRobin/Fair.antt =====
-- src/sa-ecf/path_scheduler.go: the round robin takes a path that has sent least.
use ivsh.Common.{
  Among, All-Among, ℕ, ◌≤◌, ◌<◌, ◌≡◌, refl, arith, List, [], ◌∷◌, Bool, true, false, Option, none,
  some, ltb, leb, length, All, All-map, All-map2, Bool-cases, inl, inr, ◌∙◌, sym,
}
use ivsh.Common.Result.{ok}
use ivsh.Scheduler.Paths.{NetworkPath, Scheduler, is_considered, quota_of, quota_of-touch}
use ivsh.Scheduler.RoundRobin.{Selection, round, rounds, select_path_round_robin, max_uint}

-- Between rounds: the selected path is one of those that are considered, its quota is the lowest
-- so far, and the quotas read as in the beginning.
record Inv (retransmits : Bool) (quotas : List (ℕ × ℕ)) (paths : List NetworkPath) (s : Selection)
    : Type 0 where
  pub same : (id : ℕ) → quota_of id s.quotas ≡ quota_of id quotas
  pub nothing : s.selected ≡ none → s.lower_quota ≡ max_uint
  pub selected :
      (p : NetworkPath)
      → s.selected ≡ some p
      → Among p paths
        × (is_considered retransmits p ≡ true)
        × (quota_of p.path_id quotas ≡ s.lower_quota)

round-Inv :
    (retransmits : Bool) (quotas : List (ℕ × ℕ)) (paths : List NetworkPath) (p : NetworkPath)
    (s : Selection)
    → Among p paths
    → Inv retransmits quotas paths s
    → Inv retransmits quotas paths (round retransmits p s)
      × ((round retransmits p s).lower_quota ≤ s.lower_quota)
      × (is_considered retransmits p ≡ true
          → (round retransmits p s).lower_quota ≤ quota_of p.path_id quotas)
unfolding round
round-Inv retransmits quotas paths p s here v = elim (Bool-cases (is_considered retransmits p)) [
  | inr passed ↦ rw (passed, round) (v, omega arith, λ h. cc)
  | inl considered ↦ elim (Bool-cases (ltb (quota_of p.path_id s.quotas) s.lower_quota)) [
    | inl less ↦
        rw (considered, round, less)
          (
            record {
              same = λ id. quota_of-touch p.path_id id s.quotas ∙ v.same id;
              nothing = λ h. cc;
              selected = λ q e.
                  let same : p ≡ q = cc in rw (sym same) (here, considered, sym (v.same p.path_id));
            },
            ground arith,
            λ h. ground (arith, v.same p.path_id),
          )
    | inr more ↦
        rw (considered, round, more)
          (
            record {
              same = λ id. quota_of-touch p.path_id id s.quotas ∙ v.same id;
              nothing = v.nothing;
              selected = v.selected;
            },
            omega arith,
            λ h. ground (arith, v.same p.path_id),
          )
  ]
]

-- The loop over `todo`, which is a part of `paths`.
rounds-Inv :
    (retransmits : Bool) (quotas : List (ℕ × ℕ)) (paths todo : List NetworkPath) (s : Selection)
    → All (λ p. Among p paths) todo
    → Inv retransmits quotas paths s
    → let s' = rounds retransmits todo s in
      Inv retransmits quotas paths s'
      × (s'.lower_quota ≤ s.lower_quota)
      × All
          (λ p. is_considered retransmits p ≡ true → s'.lower_quota ≤ quota_of p.path_id quotas)
          todo
unfolding rounds
rounds-Inv retransmits quotas paths [] s here v = (v, omega arith, tt)
rounds-Inv retransmits quotas paths (p ∷ todo) s (here, more) v =
    let (next, shrinks, covers) = round-Inv retransmits quotas paths p s here v in
    let (last, shrinks', covered) =
      rounds-Inv retransmits quotas paths todo (round retransmits p s) more next in
    (last, omega arith, (λ h. let low = covers h in omega arith, covered))

-- With several paths whose quotas are below the largest uint, the round robin selects none just if
-- no path is considered; and otherwise one of the considered paths that has sent least. The quotas
-- read as before.
pub select_path_round_robin-fair :
    (retransmits : Bool) (paths : List NetworkPath) (sch : Scheduler)
    → 1 < length paths
    → All (λ p. quota_of p.path_id sch.quotas < max_uint) paths
    → (sch' : Scheduler) × (selected : Option NetworkPath) × (select_path_round_robin retransmits
          paths sch
        ≡ ok (sch', selected))
      × ((id : ℕ) → quota_of id sch'.quotas ≡ quota_of id sch.quotas)
      × (selected ≡ none → All (λ q. is_considered retransmits q ≡ false) paths)
      × ((p : NetworkPath)
          → selected ≡ some p
          → Among p paths
            × (is_considered retransmits p ≡ true)
            × All
                (λ q.
                  is_considered retransmits q ≡ true
                  → quota_of p.path_id sch.quotas ≤ quota_of q.path_id sch.quotas)
                paths)
unfolding select_path_round_robin
select_path_round_robin-fair retransmits paths sch several below =
    let start : Selection = record {
      quotas = sch.quotas;
      selected = none;
      lower_quota = max_uint;
    } in
    let s = rounds retransmits paths start in
    let many : leb (length paths) 1 ≡ false = ground arith in
    let (v, _, covered) =
      rounds-Inv retransmits sch.quotas paths paths start (All-Among paths)
        (record { same = λ id. refl; nothing = λ h. refl; selected = λ p e. cc }) in
    (
      record sch { quotas = s.quotas },
      s.selected,
      rw (many, select_path_round_robin),
      v.same,
      λ none_left.
          All-map2 (λ q low h. ground (arith, v.nothing none_left, low)) paths covered below,
      λ p e.
          let (here, considered, lowest) = v.selected p e in
          (here, considered, All-map (λ q low h. ground (arith, lowest, low h)) paths covered),
    )
