-- ===== src/Scheduler/LowLatency/Fastest.antt =====
-- src/sa-ecf/path_scheduler.go: the low latency scheduler takes the fastest path that is probed, or
-- one that has sent least if none is.
use ivsh.Common.{
  Among, All-Among, ℕ, ◌≤◌, ◌<◌, ◌≡◌, ◌⊎◌, refl, arith, List, [], ◌∷◌, Bool, true, false, Option,
  none, some, leb, length, All, All-map, Option-cases, Bool-cases, inl, inr, ◌∙◌, sym,
}
use ivsh.Common.Result.{ok}
use ivsh.Scheduler.Paths.{NetworkPath, Scheduler, is_considered, quota_of, quota_of-touch, reroute}
use ivsh.Scheduler.LowLatency.{Selection, start, round, rounds, select_path_low_latency}

-- `p` is no worse than `q`: it is faster than a probed `q` or as fast, and if it is itself not
-- probed, then neither is `q`, and `q` has not sent less.
abbrev pub NoWorse : List (ℕ × ℕ) → NetworkPath → NetworkPath → Type 0
NoWorse quotas p q =
    (0 < q.smoothed_rtt → (0 < p.smoothed_rtt) × (p.smoothed_rtt ≤ q.smoothed_rtt))
    × (p.smoothed_rtt ≡ 0 → quota_of p.path_id quotas ≤ quota_of q.path_id quotas)

NoWorse-trans :
    (quotas : List (ℕ × ℕ)) (p q r : NetworkPath)
    → NoWorse quotas p q
    → NoWorse quotas q r
    → NoWorse quotas p r
NoWorse-trans quotas p q r h k = ground arith

NoWorse-same :
    (given now : List (ℕ × ℕ)) (p q : NetworkPath)
    → ((id : ℕ) → quota_of id now ≡ quota_of id given)
    → NoWorse now p q
    → NoWorse given p q
NoWorse-same given now p q same (faster, less) = (
  faster,
  λ unprobed. let low = less unprobed in omega (arith, low, same p.path_id, same q.path_id),
)

round-quotas :
    (retransmits : Bool) (p : NetworkPath) (s : Selection) (id : ℕ)
    → quota_of id (round retransmits p s).quotas ≡ quota_of id s.quotas
unfolding round
round-quotas retransmits p s id = let entered = quota_of-touch p.path_id id s.quotas in ground arith

abbrev pub Took : NetworkPath → Selection → Type 0
Took p s = (s.selected ≡ some p) × (s.lower_rtt ≡ p.smoothed_rtt) × (s.selected_path_id ≡ p.path_id)

round-passed :
    (retransmits : Bool) (p : NetworkPath) (s : Selection)
    → is_considered retransmits p ≡ false
    → round retransmits p s ≡ s
unfolding round
round-passed retransmits p s passed = rw (passed, round) refl

-- The first path that is considered is taken.
round-first :
    (retransmits : Bool) (p : NetworkPath) (s : Selection)
    → is_considered retransmits p ≡ true
    → s.selected ≡ none
    → s.lower_rtt ≡ 0
    → Took p (round retransmits p s)
unfolding round
round-first retransmits p s considered free fresh = ground arith

-- After that a path is passed over if the selected one is no worse, and taken if it is itself.
round-next :
    (retransmits : Bool) (p q : NetworkPath) (s : Selection)
    → is_considered retransmits p ≡ true
    → Took q s
    → (Took q (round retransmits p s) × NoWorse s.quotas q p)
      ⊎ (Took p (round retransmits p s) × NoWorse s.quotas p q)
unfolding round
round-next retransmits p q s considered (chosen, rtt, id) =
    let entered_p = quota_of-touch p.path_id p.path_id s.quotas in
    let entered_q = quota_of-touch p.path_id q.path_id s.quotas in
    rw (considered, round, chosen, rtt, id) (ground arith)

-- Between rounds: the quotas read as in the beginning, and the selected path is one of those that
-- are considered, and no worse than each of them that the loop has visited.
pub record Inv (retransmits : Bool) (quotas : List (ℕ × ℕ)) (paths seen : List NetworkPath)
    (s : Selection) : Type 0 where
  pub same : (id : ℕ) → quota_of id s.quotas ≡ quota_of id quotas
  pub nothing :
      s.selected ≡ none → (s.lower_rtt ≡ 0) × All (λ q. is_considered retransmits q ≡ false) seen
  pub selected :
      (p : NetworkPath)
      → s.selected ≡ some p
      → Took p s
        × Among p paths
        × (is_considered retransmits p ≡ true)
        × All (λ q. is_considered retransmits q ≡ true → NoWorse quotas p q) seen

-- The loop visits its paths in turn.
visited : List NetworkPath → List NetworkPath → List NetworkPath
visited [] seen = seen
visited (p ∷ todo) seen = visited todo (p ∷ seen)

All-visited :
    (P : NetworkPath → Type 0) (todo seen : List NetworkPath)
    → All P (visited todo seen)
    → All P todo × All P seen
unfolding visited
All-visited P [] seen h = (tt, h)
All-visited P (p ∷ todo) seen h =
    let (rest, (first, before)) = All-visited P todo (p ∷ seen) h in ((first, rest), before)

true-false : ◌≡◌ {A = Bool} true false → ⊥
true-false e = cc

pub none-some : {p : NetworkPath} → ◌≡◌ {A = Option NetworkPath} none (some p) → ⊥
none-some e = cc

module _ (retransmits : Bool) (quotas : List (ℕ × ℕ)) (paths : List NetworkPath) where
  -- What is selected once `p` is taken, if `p` is no worse than what was visited.
  Took-Inv :
      (p : NetworkPath) (seen : List NetworkPath) (s : Selection)
      → ((id : ℕ) → quota_of id s.quotas ≡ quota_of id quotas)
      → Took p s
      → Among p paths
      → is_considered retransmits p ≡ true
      → All (λ q. is_considered retransmits q ≡ true → NoWorse quotas p q) seen
      → Inv retransmits quotas paths seen s
  Took-Inv p seen s same took here considered no_worse = record {
    same = same;
    nothing = λ e. absurd (none-some (sym e ∙ took.0));
    selected = λ q e. let equal : p ≡ q = cc in rw (sym equal) (took, here, considered, no_worse);
  }

  round-Inv :
      (p : NetworkPath) (seen : List NetworkPath) (s : Selection)
      → Among p paths
      → Inv retransmits quotas paths seen s
      → Inv retransmits quotas paths (p ∷ seen) (round retransmits p s)
  round-Inv p seen s here v =
      let same = λ (id : ℕ). round-quotas retransmits p s id ∙ v.same id in
      elim (Bool-cases (is_considered retransmits p)) [
        | inr passed ↦ rw (round-passed retransmits p s passed) (record {
          same = v.same;
          nothing = λ e. let (fresh, none_before) = v.nothing e in (fresh, (passed, none_before));
          selected = λ q e.
              let (took, among, considered, no_worse) = v.selected q e in
              (took, among, considered, ((λ h. absurd (true-false (sym h ∙ passed))), no_worse));
        })
        | inl considered ↦ elim (Option-cases s.selected) [
          | inl free ↦
              let (fresh, passed) = v.nothing free in
              Took-Inv p (p ∷ seen) _ same (round-first retransmits p s considered free fresh) here
                considered
                (
                  (λ h. (λ positive. (positive, omega arith), λ e. omega arith)),
                  All-map (λ q skipped h. absurd (true-false (sym h ∙ skipped))) seen passed,
                )
          | inr (q, chosen) ↦
              let (took, among, q-considered, no_worse) = v.selected q chosen in
              elim (round-next retransmits p q s considered took) [
                | inl (keeps, better) ↦
                    Took-Inv q (p ∷ seen) _ same keeps among q-considered
                      ((λ h. NoWorse-same quotas s.quotas q p v.same better), no_worse)
                | inr (takes, better) ↦ Took-Inv p (p ∷ seen) _ same takes here considered (
                  (λ h. (λ positive. (positive, omega arith), λ e. omega arith)),
                  All-map
                      (λ r before h.
                        NoWorse-trans quotas p q r (NoWorse-same quotas s.quotas p q v.same better)
                          (before h))
                      seen no_worse,
                )
              ]
        ]
      ]

  rounds-Inv :
      (todo seen : List NetworkPath) (s : Selection)
      → All (λ p. Among p paths) todo
      → Inv retransmits quotas paths seen s
      → Inv retransmits quotas paths (visited todo seen) (rounds retransmits todo s)
  unfolding rounds visited
  rounds-Inv [] seen s here v = v
  rounds-Inv (p ∷ todo) seen s (here, more) v =
      rounds-Inv todo (p ∷ seen) _ more (round-Inv p seen s here v)

-- The whole loop.
pub rounds-start :
    (retransmits : Bool) (quotas : List (ℕ × ℕ)) (paths : List NetworkPath)
    → Inv retransmits quotas paths paths (rounds retransmits paths (start quotas))
rounds-start retransmits quotas paths =
    let v = rounds-Inv retransmits quotas paths paths [] (start quotas) (All-Among paths) (record {
      same = λ id. refl;
      nothing = λ e. (refl, tt);
      selected = λ p e. absurd (none-some e);
    }) in
    record {
      same = v.same;
      nothing = λ e.
          let (fresh, none_left) = v.nothing e in
          (fresh, (All-visited (λ q. is_considered retransmits q ≡ false) paths [] none_left).0);
      selected = λ p e.
          let (took, among, considered, no_worse) = v.selected p e in
          (
            took,
            among,
            considered,
            (All-visited (λ q. is_considered retransmits q ≡ true → NoWorse quotas p q) paths []
                no_worse).0,
          );
    }

-- With several paths, and unless a retransmission is sent on another path that sent less, the low
-- latency scheduler selects none just if no path is considered; and otherwise a considered path
-- that is no worse than any other: the fastest of those that are probed, or, if none is, one that
-- has sent least. The quotas read as before.
pub select_path_low_latency-fastest :
    (retransmits stream_retransmits : Bool) (from : Option NetworkPath) (paths : List NetworkPath)
    (sch : Scheduler)
    → 1 < length paths
    → reroute retransmits stream_retransmits sch.quotas from paths ≡ ok none
    → (sch' : Scheduler) × (selected : Option NetworkPath) × (select_path_low_latency retransmits
          stream_retransmits from paths sch
        ≡ ok (sch', selected))
      × ((id : ℕ) → quota_of id sch'.quotas ≡ quota_of id sch.quotas)
      × (selected ≡ none → All (λ q. is_considered retransmits q ≡ false) paths)
      × ((p : NetworkPath)
          → selected ≡ some p
          → Among p paths
            × (is_considered retransmits p ≡ true)
            × All (λ q. is_considered retransmits q ≡ true → NoWorse sch.quotas p q) paths)
unfolding select_path_low_latency
select_path_low_latency-fastest retransmits stream_retransmits from paths sch several direct =
    let v = rounds-start retransmits sch.quotas paths in
    let s = rounds retransmits paths (start sch.quotas) in
    let many : leb (length paths) 1 ≡ false = ground arith in
    (
      record sch { quotas = s.quotas },
      s.selected,
      rw (many, select_path_low_latency, direct) refl,
      v.same,
      λ e. (v.nothing e).1,
      λ p e.
          let (took, among, considered, no_worse) = v.selected p e in (among, considered, no_worse),
    )
