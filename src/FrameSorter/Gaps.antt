-- ===== src/FrameSorter/Gaps.antt =====
-- src/sa-ecf/stream_frame_sorter.go: the gaps as the set of the bytes that were not received, and what the
-- loops over them find.
use ivsh.Common.{
  ℕ, ◌≤◌, ◌<◌, ◌≡◌, refl, ap, ◌∙◌, arith, List, [], ◌∷◌, ◌++◌, ◌&&◌, ◌⊎◌, ◌||◌, Bool, true, false,
  none, ltb, leb, if◌then◌else◌, Bool-cases, inl, inr,
}
use ivsh.Common.Assoc.{erase}
use ivsh.Wire.StreamFrame.{StreamFrame}
use ivsh.FrameSorter.{
  ByteInterval, EndGap, Search, duplicate, end_at, find_end_gap, find_gap, found, interval,
  not_found, past_gap,
}

abbrev pub in_gap : ℕ → ByteInterval → Bool
in_gap p g = leb g.start p && ltb p g.end

-- The byte `p` lies in one of the gaps.
abbrev pub in_gaps : ℕ → List ByteInterval → Bool
in_gaps p [] = false
in_gaps p (g ∷ gs) = in_gap p g || in_gaps p gs

-- The gaps are nonempty, start at `lo` at the earliest, and lie one behind the other.
abbrev pub Sorted : ℕ → List ByteInterval → Type 0
Sorted lo [] = Unit {0}
Sorted lo (g ∷ gs) = (lo ≤ g.start) × (g.start < g.end) × Sorted g.end gs

pub in_gaps_below :
    (p lo : ℕ) (gs : List ByteInterval) → Sorted lo gs → p < lo → in_gaps p gs ≡ false
in_gaps_below p lo [] s h = refl
in_gaps_below p lo (g ∷ gs) (le, ne, s) h =
    let rest = in_gaps_below p g.end gs s (omega arith) in
    let here : in_gap p g ≡ false = ground arith in rw (here, rest) refl

pub in_gaps-append :
    (p : ℕ) (gs hs : List ByteInterval) → in_gaps p (gs ++ hs) ≡ (in_gaps p gs || in_gaps p hs)
in_gaps-append p [] hs = refl
in_gaps-append p (g ∷ gs) hs = ground (arith, in_gaps-append p gs hs)

pub Sorted-mono : (lo lo' : ℕ) (gs : List ByteInterval) → lo' ≤ lo → Sorted lo gs → Sorted lo' gs
Sorted-mono lo lo' [] h s = tt
Sorted-mono lo lo' (g ∷ gs) h (le, ne, s) = (omega arith, ne, s)

-- What the search says about the bytes from `start` to `end`.
abbrev pub Says : (start end : ℕ) → List ByteInterval → Search → Type 0
Says start end gs duplicate = (p : ℕ) → start ≤ p → p < end → in_gaps p gs ≡ false
Says start end gs not_found = Unit {0}
Says start end gs (found before gap after) =
    (gs ≡ before ++ (gap ∷ after))
    × ((p : ℕ) → start ≤ p → in_gaps p before ≡ false)
    × (gap.start < end)
    × (start ≤ gap.end)

Says-past_gap :
    (start end : ℕ) (g : ByteInterval) (gs : List ByteInterval) (r : Search)
    → g.end < start
    → Says start end gs r
    → Says start end (g ∷ gs) (past_gap g r)
Says-past_gap start end g gs duplicate h says =
    λ p from to. (let here : in_gap p g ≡ false = ground arith in rw (here, says p from to) refl)
Says-past_gap start end g gs not_found h says = tt
Says-past_gap start end g gs (found before gap after) h (split, free, below, above) = (
  ap (λ rest. g ∷ rest) split,
  λ p from. (let here : in_gap p g ≡ false = ground arith in rw (here, free p from) refl),
  below,
  above,
)

pub find_gap-Says :
    (start end lo : ℕ) (gs : List ByteInterval)
    → Sorted lo gs
    → Says start end gs (find_gap start end gs)
find_gap-Says start end lo [] s = tt
find_gap-Says start end lo (g ∷ gs) (le, ne, s) =
    let rest = find_gap-Says start end g.end gs s in
    elim (Bool-cases (leb end g.start)) [
      | inl done ↦ rw done (λ p from to.
          in_gaps_below p g.start (g ∷ gs) (omega arith, ne, s) (ground (arith, done)))
      | inr more ↦ elim (Bool-cases (ltb g.start end && leb start g.end)) [
        | inl here ↦
            rw (more, here) (refl, λ p from. refl, ground (arith, more), ground (arith, here))
        | inr later ↦
            rw (more, later)
              (Says-past_gap start end g gs (find_gap start end gs) (ground (arith, more, later))
                rest)
      ]
    ]

-- The gaps from the end gap on, without what the frame fills of it.
abbrev pub tail_gaps : ℕ → EndGap → List ByteInterval
tail_gaps end e = if e.is_filled then e.after else interval end e.end_gap.end ∷ e.after

-- What the loop to the end gap finds, for a frame that reaches from the gap `g` on to `end`.
pub record Ends (end : ℕ) (is_first : Bool) (g : ByteInterval) (gs : List ByteInterval) (e : EndGap)
    : Type 0 where
  pub first_lem : e.is_first ≡ true → (is_first ≡ true) × (e.end_gap ≡ g)
  pub others : e.is_first ≡ false → (is_first ≡ false) ⊎ (g.end ≤ end)
  pub filled : e.is_filled ≡ true → e.end_gap.end ≤ end
  pub open_end : e.is_filled ≡ false → end < e.end_gap.end
  pub ordered : g.end ≤ e.end_gap.end
  pub sorted : Sorted end (tail_gaps end e)
  pub rest : (p : ℕ) → in_gaps p (tail_gaps end e) ≡ (in_gaps p (g ∷ gs) && leb end p)

-- The end gap is `g`.
here_Ends :
    (end : ℕ) (b f : Bool) (g : ByteInterval) (gs : List ByteInterval) (m : List (ℕ × StreamFrame))
    → (f ≡ true → g.end ≤ end)
    → (f ≡ false → end < g.end)
    → Sorted end (tail_gaps end (end_at g b f gs m))
    → ((p : ℕ) → in_gaps p (tail_gaps end (end_at g b f gs m)) ≡ (in_gaps p (g ∷ gs) && leb end p))
    → Ends end b g gs (end_at g b f gs m)
here_Ends end b f g gs m filled open_end sorted rest = record {
  first_lem = λ h. (h, refl);
  others = λ h. inl h;
  filled = filled;
  open_end = open_end;
  ordered = omega arith;
  sorted = sorted;
  rest = rest;
}

-- The end gap is a later one.
later_Ends :
    (end : ℕ) (b : Bool) (g n : ByteInterval) (gs : List ByteInterval) (e : EndGap)
    → g.end ≤ end
    → g.end ≤ n.start
    → n.start < n.end
    → Ends end false n gs e
    → Ends end b g (n ∷ gs) e
later_Ends end b g n gs e reaches apart ne v = record {
  first_lem = λ h. absurd (not_first (v.first_lem h).0);
  others = λ h. inr reaches;
  filled = v.filled;
  open_end = v.open_end;
  ordered = omega (arith, v.ordered);
  sorted = v.sorted;
  rest = λ p. v.rest p ∙ drop_first p;
}
  where
    not_first : false ≡ true → ⊥
    not_first h = cc

    drop_first : (p : ℕ) → (in_gaps p (n ∷ gs) && leb end p) ≡ (in_gaps p (g ∷ n ∷ gs) && leb end p)
    drop_first p = ground arith

inside_rest :
    (p end : ℕ) (g : ByteInterval) (gs : List ByteInterval)
    → g.start < end
    → end < g.end
    → Sorted g.end gs
    → in_gaps p (interval end g.end ∷ gs) ≡ (in_gaps p (g ∷ gs) && leb end p)
inside_rest p end g gs below above s = ground (arith, in_gaps_below p g.end gs s)

beyond_rest :
    (p end : ℕ) (g n : ByteInterval) (gs : List ByteInterval)
    → g.end ≤ end
    → end ≤ n.start
    → Sorted end (n ∷ gs)
    → in_gaps p (n ∷ gs) ≡ (in_gaps p (g ∷ n ∷ gs) && leb end p)
beyond_rest p end g n gs reaches stops s = ground (arith, in_gaps_below p end (n ∷ gs) s)

pub find_end_gap-Ends :
    (end : ℕ) (b : Bool) (g : ByteInterval) (gs : List ByteInterval) (m : List (ℕ × StreamFrame))
    → g.start < end
    → g.start < g.end
    → Sorted g.end gs
    → (find_end_gap end b g gs m).1 ≡ none
    → Ends end b g gs (find_end_gap end b g gs m).0
find_end_gap-Ends end b g [] m below ne s e =
    let above : end < g.end = ground arith in
    here_Ends end b false g [] m (λ h. cc) (λ h. above) (omega arith, above, tt)
      (λ p. inside_rest p end g [] below above s)
find_end_gap-Ends end b g (n ∷ gs) m below ne (apart, ne', s) e =
    let later = find_end_gap-Ends end false n gs (erase g.end m) in
    elim (Bool-cases (leb g.end end)) [
      | inl reaches ↦ elim (Bool-cases (leb end n.start)) [
        | inl stops ↦
            let sorted : Sorted end (n ∷ gs) = (ground (arith, stops), ne', s) in
            rw (reaches, stops)
              (here_Ends end b true g (n ∷ gs) m (λ h. ground (arith, reaches)) (λ h. cc) sorted
                (λ p.
                  beyond_rest p end g n gs (ground (arith, reaches)) (ground (arith, stops))
                    sorted))
        | inr more ↦
            rw (reaches, more)
              (later_Ends end b g n gs (find_end_gap end false n gs (erase g.end m)).0
                (ground (arith, reaches)) apart ne'
                (later (ground (arith, more)) ne' s (rw (reaches, more) at e)))
      ]
      | inr short ↦
          let above : end < g.end = ground (arith, short) in
          rw short (
            here_Ends end b false g (n ∷ gs) m (λ h. cc) (λ h. above)
              (omega arith, above, (apart, ne', s))
              (λ p. inside_rest p end g (n ∷ gs) below above (apart, ne', s)))
    ]
