-- ===== src/FrameSorter/Accepted.antt =====
-- src/sa-ecf/stream_frame_sorter.go: the gaps are the bytes that no accepted frame had.
use ivsh.Common.{
  ℕ, ◌+◌, ◌^◌, ◌<◌, ◌≡◌, refl, ap, ◌∙◌, arith, List, [], ◌∷◌, ◌&&◌, ◌||◌, not, Bool, true, false,
  none, length, ltb, leb, ◌==◌, Bool-cases, inl, inr,
}
use ivsh.Wire.StreamFrame.{StreamFrame}
use ivsh.FrameSorter.{StreamFrameSorter, new_stream_frame_sorter, pop, push}
use ivsh.FrameSorter.Gaps.{Sorted, in_gaps}
use ivsh.FrameSorter.Filled.{Filling, IsReceived}
use ivsh.FrameSorter.Queue.{Queued}
use ivsh.FrameSorter.Received.{Inv, new-Inv, pop-Inv, pop-gaps, push-Filling, push_empty-Filling}

-- A sorter that has accepted these frames, the last one first, with pops at any time.
pub data Accepted : List StreamFrame → StreamFrameSorter → Type 0 where
  starts : Accepted [] new_stream_frame_sorter
  accepts :
      (f : StreamFrame) (fs : List StreamFrame) (s : StreamFrameSorter)
      → f.offset + length f.bytes < 2 ^ 62
      → (push f s).1 ≡ none
      → Accepted fs s
      → Accepted (f ∷ fs) (push f s).0
  pops : (fs : List StreamFrame) (s : StreamFrameSorter) → Accepted fs s → Accepted fs (pop s).0

-- One of the frames has the byte `p`.
abbrev pub has_byte : ℕ → List StreamFrame → Bool
has_byte p [] = false
has_byte p (f ∷ fs) = (leb f.offset p && ltb p (f.offset + length f.bytes)) || has_byte p fs

Accepted-Inv :
    {fs : List StreamFrame} {s : StreamFrameSorter}
    → Accepted fs s
    → Inv s × ((p : ℕ) → p < 2 ^ 62 → in_gaps p s.gaps ≡ not (has_byte p fs))
unfolding new_stream_frame_sorter
Accepted-Inv starts = (new-Inv, λ p lt. ground arith)
Accepted-Inv (accepts f fs s bound success run) =
    let (v, gaps) = Accepted-Inv run in
    let filled : Filling f s (push f s).0 = elim (Bool-cases (length f.bytes == 0)) [
      | inl empty ↦ push_empty-Filling f s bound (ground (arith, empty)) v success
      | inr full ↦ push-Filling f s bound (ground (arith, full)) v success
    ] in
    (
      record { sorted = filled.sorted; queued = filled.queued },
      λ p lt.
          filled.fills p
          ∙ (ap (λ (b : Bool). b && not (leb f.offset p && ltb p (f.offset + length f.bytes)))
                (gaps p lt)
              ∙ either (has_byte p fs) (leb f.offset p && ltb p (f.offset + length f.bytes))),
    )
  where
    either : (a b : Bool) → (not a && not b) ≡ not (b || a)
    either true true = refl
    either true false = refl
    either false true = refl
    either false false = refl
Accepted-Inv (pops fs s run) =
    let (v, gaps) = Accepted-Inv run in
    (pop-Inv s v, λ p lt. ap (in_gaps p) (pop-gaps s) ∙ gaps p lt)

-- When a sorter has accepted frames that end below 2 ^ 62, in any order and with any overlaps, with pops at any time, then
-- a byte below 2 ^ 62 lies in one of the gaps exactly if none of the frames has it; the gaps are sorted;
-- and no queued byte lies in a gap.
pub Accepted-in_gaps :
    (fs : List StreamFrame) (s : StreamFrameSorter)
    → Accepted fs s
    → ((p : ℕ) → p < 2 ^ 62 → in_gaps p s.gaps ≡ not (has_byte p fs))
      × Sorted 0 s.gaps
      × Queued (IsReceived s.gaps) s.queued_frames
Accepted-in_gaps fs s run = let (v, gaps) = Accepted-Inv run in (gaps, v.sorted, v.queued)
