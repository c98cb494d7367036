-- ===== src/Scheduler/CompletionFirst/Best.antt =====
-- src/sa-ecf/path_scheduler.go: the best path of the earliest completion first scheduler is the one
-- that the low latency scheduler would retransmit on; the second best can send.
use ivsh.Common.{
  Among, All-Among, ℕ, ◌<◌, ◌≡◌, ◌⊎◌, refl, arith, List, [], ◌∷◌, Bool, true, false, ◌||◌, Option,
  none, some, leb, length, All, All-map, Option-cases, Bool-cases, inl, inr, ◌∙◌, sym, ap,
}
use ivsh.Common.Result.{ok}
use ivsh.Scheduler.Paths.{NetworkPath, Scheduler, is_considered, reroute}
use ivsh.Scheduler.LowLatency
use ivsh.Scheduler.LowLatency.Fastest
use ivsh.Scheduler.LowLatency.Fastest.{none-some, NoWorse, rounds-start}
use ivsh.Scheduler.CompletionFirst.{
  Selection, is_usable, round, rounds, start, update_best, update_second, choose, decide_second,
  select_path_earliest_completion_first,
}

-- What the loop has chosen as the best path.
view : Selection → LowLatency.Selection
view s = record {
  quotas = s.quotas;
  selected = s.best;
  selected_path_id = s.best_path_id;
  lower_rtt = s.lower_rtt;
}

is_usable-considered : (p : NetworkPath) → is_considered true p ≡ is_usable p
unfolding is_considered is_usable
is_usable-considered p = ground arith

view-round : (p : NetworkPath) (s : Selection) → view (round p s) ≡ LowLatency.round true p (view s)
unfolding view round LowLatency.round update_best update_second
view-round p s = let same = is_usable-considered p in ground arith

view-rounds :
    (ps : List NetworkPath) (s : Selection)
    → view (rounds ps s) ≡ LowLatency.rounds true ps (view s)
unfolding rounds LowLatency.rounds
view-rounds [] s = refl
view-rounds (p ∷ ps) s =
    view-rounds ps (round p s) ∙ ap (LowLatency.rounds true ps) (view-round p s)

-- The second best path, if any, can be used and can send.
abbrev SecondSends : List NetworkPath → Selection → Type 0
SecondSends paths s =
    (p : NetworkPath)
    → s.second_best ≡ some p
    → Among p paths × (is_usable p ≡ true) × (p.sending_allowed ≡ true)

second-cases :
    (p : NetworkPath) (s : Selection)
    → ((round p s).second_best ≡ s.second_best)
      ⊎ (((round p s).second_best ≡ some p) × (is_usable p ≡ true) × (p.sending_allowed ≡ true))
unfolding round update_best update_second
second-cases p s = ground arith

round-SecondSends :
    (paths : List NetworkPath) (p : NetworkPath) (s : Selection)
    → Among p paths
    → SecondSends paths s
    → SecondSends paths (round p s)
round-SecondSends paths p s here v q e = elim (second-cases p s) [
  | inl kept ↦ v q (sym kept ∙ e)
  | inr (new, usable, allowed) ↦ let same : p ≡ q = cc in rw (sym same) (here, usable, allowed)
]

rounds-SecondSends :
    (paths todo : List NetworkPath) (s : Selection)
    → All (λ p. Among p paths) todo
    → SecondSends paths s
    → SecondSends paths (rounds todo s)
unfolding rounds
rounds-SecondSends paths [] s here v = v
rounds-SecondSends paths (p ∷ todo) s (here, more) v =
    rounds-SecondSends paths todo _ more (round-SecondSends paths p s here v)

-- The second path is chosen or none, and `waiting` stays 0 or 1.
pub decide_second-cases :
    (lens : List ℕ) (best : NetworkPath) (lower_rtt : ℕ) (second : NetworkPath)
    (second_lower_rtt : ℕ) (sch : Scheduler)
    → let (sch', selected) = decide_second lens best lower_rtt second second_lower_rtt sch in
      ((selected ≡ none) × (sch'.waiting ≡ 1))
      ⊎ ((selected ≡ some second) × ((sch'.waiting ≡ sch.waiting) ⊎ (sch'.waiting ≡ 0)))
unfolding decide_second
decide_second-cases lens best lower_rtt second second_lower_rtt sch = ground arith

choose-from :
    (retransmits : Bool) (lens : List ℕ) (s : Selection) (sch : Scheduler) (p : NetworkPath)
    → (choose retransmits lens s sch).1 ≡ some p
    → (s.best ≡ some p) ⊎ (s.second_best ≡ some p)
unfolding choose
choose-from retransmits lens s sch p e = elim (Option-cases s.best) [
  | inl missing ↦ inr (rw (missing, choose) at e)
  | inr (best, is_best) ↦ elim (Bool-cases (retransmits || best.sending_allowed)) [
    | inl sends ↦ inl (is_best ∙ (rw (is_best, choose, sends) at e))
    | inr blocked ↦ elim (Option-cases s.second_best) [
      | inl no_second ↦ absurd (none-some (rw (is_best, choose, blocked, no_second) at e))
      | inr (second, is_second) ↦
          elim (decide_second-cases lens best s.lower_rtt second s.second_lower_rtt sch) [
            | inl (waits, _) ↦
                absurd (none-some (sym waits ∙ (rw (is_best, choose, blocked, is_second) at e)))
            | inr (takes, _) ↦
                inr (is_second ∙ (sym takes ∙ (rw (is_best, choose, blocked, is_second) at e)))
          ]
    ]
  ]
]

choose-best :
    (retransmits : Bool) (lens : List ℕ) (s : Selection) (sch : Scheduler) (p : NetworkPath)
    → s.best ≡ some p
    → (retransmits || p.sending_allowed) ≡ true
    → (choose retransmits lens s sch).1 ≡ some p
unfolding choose
choose-best retransmits lens s sch p is_best sends = rw (is_best, choose, sends) refl

view-start : (quotas : List (ℕ × ℕ)) → view (start quotas) ≡ LowLatency.start quotas
unfolding view
view-start quotas = refl

-- What the loop leaves as the best path.
best-Inv :
    (quotas : List (ℕ × ℕ)) (paths : List NetworkPath)
    → Fastest.Inv true quotas paths paths (view (rounds paths (start quotas)))
best-Inv quotas paths =
    rw (view-rounds paths (start quotas), view-start quotas) (rounds-start true quotas paths)

-- How the choice depends on the best and the second best path.
pub Outcome :
    Bool → List (ℕ × ℕ) → List NetworkPath → Option NetworkPath → Option NetworkPath → Type 0
Outcome retransmits quotas paths best selected =
    (best ≡ none → All (λ q. is_usable q ≡ false) paths)
    × ((p : NetworkPath)
        → best ≡ some p
        → Among p paths
          × (is_usable p ≡ true)
          × All (λ q. is_usable q ≡ true → NoWorse quotas p q) paths
          × ((retransmits || p.sending_allowed) ≡ true → selected ≡ some p))
    × ((p : NetworkPath)
        → selected ≡ some p
        → (best ≡ some p) ⊎ (Among p paths × (is_usable p ≡ true) × (p.sending_allowed ≡ true)))

choose-Outcome :
    (retransmits : Bool) (lens : List ℕ) (paths : List NetworkPath) (sch sch' : Scheduler)
    → let s = rounds paths (start sch.quotas) in
      Outcome retransmits sch.quotas paths s.best (choose retransmits lens s sch').1
unfolding Outcome view
choose-Outcome retransmits lens paths sch sch' =
    let s = rounds paths (start sch.quotas) in
    let v = best-Inv sch.quotas paths in
    let second =
      rounds-SecondSends paths paths (start sch.quotas) (All-Among paths)
        (λ p e. absurd (none-some e)) in
    (
      λ e. All-map (λ q h. sym (is_usable-considered q) ∙ h) paths (v.nothing e).1,
      λ p e.
          let (took, among, considered, no_worse) = v.selected p e in
          (
            among,
            sym (is_usable-considered p) ∙ considered,
            All-map (λ q f usable. f (is_usable-considered q ∙ usable)) paths no_worse,
            choose-best retransmits lens s sch' p e,
          ),
      λ p e. elim (choose-from retransmits lens s sch' p e) [
        | inl is_best ↦ inl is_best
        | inr is_second ↦ inr (second p is_second)
      ],
    )

-- With several paths, and unless a retransmission is sent on another path that sent less, there is
-- a best path among those that have not failed and are not the initial one, if there are any: none
-- of them is faster, and if it is not probed, neither is any other, nor has one sent less. That one
-- is selected if it can send or something is retransmitted; anything else that is selected is a path
-- that can send, has not failed and is not the initial one.
pub select_path_earliest_completion_first-Outcome :
    (retransmits stream_retransmits : Bool) (from : Option NetworkPath) (lens : List ℕ)
    (paths : List NetworkPath) (sch : Scheduler)
    → 1 < length paths
    → reroute retransmits stream_retransmits sch.quotas from paths ≡ ok none
    → (sch' : Scheduler) × (best : Option NetworkPath) × (selected : Option NetworkPath)
      × (select_path_earliest_completion_first retransmits stream_retransmits from lens paths sch
          ≡ ok (sch', selected))
      × Outcome retransmits sch.quotas paths best selected
unfolding select_path_earliest_completion_first
select_path_earliest_completion_first-Outcome retransmits stream_retransmits from lens paths sch
      several direct =
    let s = rounds paths (start sch.quotas) in
    let many : leb (length paths) 1 ≡ false = ground arith in
    (
      (choose retransmits lens s (record sch { quotas = s.quotas })).0,
      s.best,
      (choose retransmits lens s (record sch { quotas = s.quotas })).1,
      rw (many, select_path_earliest_completion_first, direct) refl,
      choose-Outcome retransmits lens paths sch (record sch { quotas = s.quotas }),
    )
