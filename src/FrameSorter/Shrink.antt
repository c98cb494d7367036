-- ===== src/FrameSorter/Shrink.antt =====
-- src/sa-ecf/stream_frame_sorter.go: what a frame leaves of the gaps that it reaches.
use ivsh.Common.{
  ℕ, ◌^◌, ◌≤◌, ◌<◌, ◌≡◌, refl, ap, ◌∙◌, arith, List, [], ◌∷◌, ◌++◌, ◌&&◌, ◌||◌, not, Bool, true,
  false, ltb, leb, ◌==◌, if◌then◌else◌, sub64, Bool-cases, inl, inr,
}
use mathlib.Core.Path.{subst}
use ivsh.Wire.StreamFrame.{StreamFrame}
use ivsh.FrameSorter.{ByteInterval, EndGap, end_at, interval, shrink}
use ivsh.FrameSorter.Gaps.{
  Ends, Sorted, Sorted-mono, in_gaps, in_gaps-append, in_gaps_below, tail_gaps,
}

-- What is left in front of the frame.
abbrev pub first_part : ℕ → ByteInterval → List ByteInterval
first_part start gap = if start == gap.start then [] else interval gap.start start ∷ []

-- The end of the frame after the cut.
abbrev pub cut_end : ℕ → ℕ → ℕ
cut_end gap_end end = if ltb gap_end end then sub64 end (sub64 end gap_end) else end

cut_end_filled : (gap_end end : ℕ) → end < 2 ^ 62 → gap_end ≤ end → cut_end gap_end end ≡ gap_end
cut_end_filled gap_end end bound h = ground arith

cut_end_open : (gap_end end : ℕ) → end < gap_end → cut_end gap_end end ≡ end
cut_end_open gap_end end h = ground arith

shrink_first :
    (start end : ℕ) (filled : Bool) (gap : ByteInterval) (after : List ByteInterval)
    (m : List (ℕ × StreamFrame))
    → end < 2 ^ 62
    → gap.start < gap.end
    → (filled ≡ true → gap.end ≤ end)
    → (filled ≡ false → end < gap.end)
    → let e = end_at gap true filled after m in
      shrink start (cut_end gap.end end) gap e ++ after ≡ first_part start gap ++ tail_gaps end e
unfolding shrink
shrink_first start end true gap after m bound ne filled open_end =
    let cut = cut_end_filled gap.end end bound (filled refl) in
    elim (Bool-cases (start == gap.start)) [
      | inl same ↦ rw (cut, same) (ground arith)
      | inr other ↦ rw (cut, other) (ground arith)
    ]
shrink_first start end false gap after m bound ne filled open_end =
    let cut = cut_end_open gap.end end (open_end refl) in
    let short : end < gap.end = open_end refl in
    elim (Bool-cases (start == gap.start)) [
      | inl same ↦ rw (cut, same) (ground arith)
      | inr other ↦ rw (cut, other) (ground arith)
    ]

shrink_other :
    (start end : ℕ) (filled : Bool) (gap g : ByteInterval) (after : List ByteInterval)
    (m : List (ℕ × StreamFrame))
    → end < 2 ^ 62
    → gap.end ≤ end
    → gap.end ≤ g.end
    → (filled ≡ true → g.end ≤ end)
    → (filled ≡ false → end < g.end)
    → let e = end_at g false filled after m in
      shrink start (cut_end g.end end) gap e ++ after ≡ first_part start gap ++ tail_gaps end e
unfolding shrink
shrink_other start end true gap g after m bound reaches ordered filled open_end =
    let cut = cut_end_filled g.end end bound (filled refl) in
    elim (Bool-cases (start == gap.start)) [
      | inl same ↦ rw (cut, same) (ground arith)
      | inr other ↦ rw (cut, other) (ground arith)
    ]
shrink_other start end false gap g after m bound reaches ordered filled open_end =
    let cut = cut_end_open g.end end (open_end refl) in
    let short : end < g.end = open_end refl in
    elim (Bool-cases (start == gap.start)) [
      | inl same ↦ rw (cut, same) (ground arith)
      | inr other ↦ rw (cut, other) (ground arith)
    ]

eta_first :
    (gap : ByteInterval) (e : EndGap)
    → e.is_first ≡ true
    → e.end_gap ≡ gap
    → end_at gap true e.is_filled e.after e.queued_frames ≡ e
eta_first gap e h same = cc (h, same)

eta_other :
    (e : EndGap)
    → e.is_first ≡ false
    → end_at e.end_gap false e.is_filled e.after e.queued_frames ≡ e
eta_other e h = cc h

not_both : {A : Type 0} → true ≡ false → A
not_both h = absurd (contradiction h)
  where
    contradiction : true ≡ false → ⊥
    contradiction e = cc

reaches_lem :
    (end : ℕ) (gap : ByteInterval) (after : List ByteInterval) (e : EndGap)
    → Ends end true gap after e
    → e.is_first ≡ false
    → gap.end ≤ end
reaches_lem end gap after e v other = elim (v.others other) [
  | inl never ↦ not_both never
  | inr reaches ↦ reaches
]

-- The part in front of the frame is left, and what lies behind it.
shrink_lem :
    (start end : ℕ) (gap : ByteInterval) (after : List ByteInterval) (e : EndGap)
    → end < 2 ^ 62
    → gap.start < gap.end
    → Ends end true gap after e
    → shrink start (cut_end e.end_gap.end end) gap e ++ e.after
      ≡ first_part start gap ++ tail_gaps end e
shrink_lem start end gap after e bound ne v = elim (Bool-cases e.is_first) [
  | inl first ↦
      let (_, same) = v.first_lem first in
      let filled : e.is_filled ≡ true → gap.end ≤ end = λ h. (rw same at (v.filled h)) in
      let open_end : e.is_filled ≡ false → end < gap.end = λ h. (rw same at (v.open_end h)) in
      subst
        (λ (x : EndGap).
          shrink start (cut_end x.end_gap.end end) gap x ++ x.after
          ≡ first_part start gap ++ tail_gaps end x)
        (eta_first gap e first same)
        (shrink_first start end e.is_filled gap e.after e.queued_frames bound ne filled open_end)
  | inr other ↦
      subst
        (λ (x : EndGap).
          shrink start (cut_end x.end_gap.end end) gap x ++ x.after
          ≡ first_part start gap ++ tail_gaps end x)
        (eta_other e other)
        (shrink_other start end e.is_filled gap e.end_gap e.after e.queued_frames bound
          (reaches_lem end gap after e v other) v.ordered v.filled v.open_end)
]

-- The bytes from `start` to `end` are no longer in the gaps, and all others stay as they were.
pub shrink-in_gaps :
    (p start end : ℕ) (gap : ByteInterval) (after : List ByteInterval) (e : EndGap)
    → end < 2 ^ 62
    → gap.start ≤ start
    → start ≤ gap.end
    → start < end
    → gap.start < gap.end
    → Sorted gap.end after
    → Ends end true gap after e
    → in_gaps p (shrink start (cut_end e.end_gap.end end) gap e ++ e.after)
      ≡ (in_gaps p (gap ∷ after) && not (leb start p && ltb p end))
shrink-in_gaps p start end gap after e bound from to ne gap_ne s v =
    rw (shrink_lem start end gap after e bound gap_ne v) (
      in_gaps-append p (first_part start gap) (tail_gaps end e)
      ∙ (ap (λ (b : Bool). in_gaps p (first_part start gap) || b) (v.rest p) ∙ both p))
  where
    both :
        (p : ℕ)
        → (in_gaps p (first_part start gap) || (in_gaps p (gap ∷ after) && leb end p))
          ≡ (in_gaps p (gap ∷ after) && not (leb start p && ltb p end))
    both p = ground (arith, in_gaps_below p gap.end after s)

pub shrink-Sorted :
    (start end : ℕ) (gap : ByteInterval) (after : List ByteInterval) (e : EndGap)
    → end < 2 ^ 62
    → gap.start ≤ start
    → start < end
    → gap.start < gap.end
    → Ends end true gap after e
    → Sorted gap.start (shrink start (cut_end e.end_gap.end end) gap e ++ e.after)
shrink-Sorted start end gap after e bound from ne gap_ne v =
    rw (shrink_lem start end gap after e bound gap_ne v) elim (Bool-cases (start == gap.start)) [
      | inl same ↦ rw same (Sorted-mono end gap.start (tail_gaps end e) (omega arith) v.sorted)
      | inr other ↦ rw other (
        omega arith,
        ground (arith, other),
        Sorted-mono end start (tail_gaps end e) (omega arith) v.sorted,
      )
    ]
