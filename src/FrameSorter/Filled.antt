-- ===== src/FrameSorter/Filled.antt =====
-- src/sa-ecf/stream_frame_sorter.go: a frame whose gap was found.
use ivsh.Common.{
  ℕ, ◌+◌, ◌-◌, ◌^◌, ◌≤◌, ◌<◌, ◌≡◌, refl, ap, sym, ◌∙◌, arith, List, [], ◌∷◌, ◌++◌, ◌&&◌, ◌⊎◌, ◌||◌,
  not, Bool, true, false, Option, none, some, length, ltb, leb, add64, sub64, Bool-cases, inl, inr,
}
use ivsh.Common.Assoc.{insert}
use ivsh.Wire.StreamFrame.{StreamFrame, data_len}
use ivsh.FrameSorter.{
  ByteInterval, EndGap, Error, StreamFrameSorter, cut_back, cut_front, cut_to, enqueue, fill,
  find_end_gap, max_stream_frame_sorter_gaps, shrink, store, store_found,
}
use ivsh.FrameSorter.Bytes.{length-drop, length_take-le}
use ivsh.FrameSorter.Gaps.{
  Sorted, Sorted-mono, find_end_gap-Ends, in_gaps, in_gaps-append, in_gaps_below,
}
use ivsh.FrameSorter.Shrink.{cut_end, shrink-Sorted, shrink-in_gaps}
use ivsh.FrameSorter.Queue.{Queued-map, Queued, Queued-insert, Queued-find_end_gap}

-- No byte of the frame lies in a gap.
abbrev pub IsReceived : List ByteInterval → StreamFrame → Type 0
IsReceived gaps f =
    (f.offset + length f.bytes < 2 ^ 62)
    × ((p : ℕ) → f.offset ≤ p → p < f.offset + length f.bytes → in_gaps p gaps ≡ false)

-- The bytes of the frame are taken out of the gaps, and no others.
abbrev pub Fills : StreamFrame → List ByteInterval → List ByteInterval → Type 0
Fills f gaps gaps' =
    (p : ℕ)
    → in_gaps p gaps'
      ≡ (in_gaps p gaps && not (leb f.offset p && ltb p (f.offset + length f.bytes)))

cut_to_lem :
    (start : ℕ) (f : StreamFrame)
    → f.offset + length f.bytes < 2 ^ 62
    → start < f.offset + length f.bytes
    → let g = cut_to start f in
      (f.offset ≤ g.offset)
      × (start ≤ g.offset)
      × ((g.offset ≡ f.offset) ⊎ (g.offset ≡ start))
      × (g.offset + length g.bytes ≡ f.offset + length f.bytes)
unfolding cut_front
cut_to_lem start f bound inside = elim (Bool-cases (ltb f.offset start)) [
  | inl cut ↦
      let n = start - f.offset in
      let plain : add64 f.offset n ≡ start = ground (arith, cut) in
      rw (cut, plain)
        (ground (arith, cut), omega arith, inr refl, ground (arith, cut, length-drop n f.bytes))
  | inr whole ↦ rw whole (omega arith, ground (arith, whole), inl refl, refl)
]

cut_back_lem :
    (gap_end end : ℕ) (f : StreamFrame)
    → let g = cut_back gap_end end f in (g.offset ≡ f.offset) × (length g.bytes ≤ length f.bytes)
unfolding cut_back
cut_back_lem gap_end end f = elim (Bool-cases (ltb gap_end end)) [
  | inl cut ↦ rw cut (refl, length_take-le (data_len f - sub64 end gap_end) f.bytes)
  | inr whole ↦ rw whole (refl, omega arith)
]

-- What a successful push leaves.
store_found_lem :
    (f : StreamFrame) (end : ℕ) (before : List ByteInterval) (gap : ByteInterval)
    (e : EndGap × Option Error) (s : StreamFrameSorter)
    → (store_found f end before gap e s).1 ≡ none
    → let s' = (store_found f end before gap e s).0 in
      let g = cut_back e.0.end_gap.end end f in
      (e.1 ≡ none)
      × (s'.gaps ≡ before ++ (shrink f.offset (cut_end e.0.end_gap.end end) gap e.0 ++ e.0.after))
      × (s'.queued_frames ≡ insert g.offset g e.0.queued_frames)
unfolding store enqueue
store_found_lem f end before gap (e, some failure) s ok = absurd (cc ok)
store_found_lem f end before gap (e, none) s ok =
    let gaps = before ++ (shrink f.offset (cut_end e.end_gap.end end) gap e ++ e.after) in
    elim (Bool-cases (ltb max_stream_frame_sorter_gaps (length gaps))) [
      | inl many ↦ absurd (too_many (rw many at ok))
      | inr few ↦ rw few (refl, refl, refl)
    ]
  where
    too_many : {failure : Error} → some failure ≡ none → ⊥
    too_many h = cc

-- The gaps behind the first ones are replaced.
Sorted-replace :
    (lo : ℕ) (before gs : List ByteInterval) (gap : ByteInterval) (after : List ByteInterval)
    → Sorted lo (before ++ (gap ∷ after))
    → (Sorted gap.start gs → Sorted lo (before ++ gs))
      × (gap.start < gap.end)
      × Sorted gap.end after
Sorted-replace lo [] gs gap after (le, ne, s) = (λ h. Sorted-mono gap.start lo gs le h, ne, s)
Sorted-replace lo (b ∷ before) gs gap after (le, ne, s) =
    let (replace, gap_ne, s') = Sorted-replace b.end before gs gap after s in
    (λ h. (le, ne, replace h), gap_ne, s')

-- The frame's own start may lie before that of the gap, in bytes that are in no gap.
from_offset :
    (p offset start end : ℕ) (before gaps : Bool)
    → offset ≤ start
    → (offset ≤ p → before ≡ false)
    → (p < start → gaps ≡ false) ⊎ (start ≡ offset)
    → (before || (gaps && not (leb start p && ltb p end)))
      ≡ ((before || gaps) && not (leb offset p && ltb p end))
from_offset p offset start end before gaps le free (inl below) = ground arith
from_offset p offset start end before gaps le free (inr same) = ground arith

-- What was received stays so, and the bytes of the frame are received now.
IsReceived-Fills :
    (f : StreamFrame) (gaps gaps' : List ByteInterval) (x : StreamFrame)
    → Fills f gaps gaps'
    → IsReceived gaps x
    → IsReceived gaps' x
IsReceived-Fills f gaps gaps' x fills (bound, free) = (
  bound,
  λ p from to.
      fills p
      ∙ ap (λ (b : Bool). b && not (leb f.offset p && ltb p (f.offset + length f.bytes)))
          (free p from to),
)

IsReceived-part :
    (f : StreamFrame) (gaps gaps' : List ByteInterval) (x : StreamFrame)
    → f.offset + length f.bytes < 2 ^ 62
    → f.offset ≤ x.offset
    → x.offset + length x.bytes ≤ f.offset + length f.bytes
    → Fills f gaps gaps'
    → IsReceived gaps' x
IsReceived-part f gaps gaps' x bound from to fills =
    (omega arith, λ p lo hi. fills p ∙ taken p (in_gaps p gaps) (omega arith) (omega arith))
  where
    taken :
        (p : ℕ) (b : Bool)
        → f.offset ≤ p
        → p < f.offset + length f.bytes
        → (b && not (leb f.offset p && ltb p (f.offset + length f.bytes))) ≡ false
    taken p b lo hi = ground arith

-- The gaps behind those before the frame determine all of them.
Fills-left :
    (f : StreamFrame) (before left gaps gaps' : List ByteInterval) (gap : ByteInterval)
    (after : List ByteInterval) (start end : ℕ)
    → gaps ≡ before ++ (gap ∷ after)
    → gaps' ≡ before ++ left
    → end ≡ f.offset + length f.bytes
    → f.offset ≤ start
    → ((p : ℕ) → f.offset ≤ p → in_gaps p before ≡ false)
    → (start ≡ f.offset) ⊎ (start ≡ gap.start)
    → gap.start < gap.end
    → Sorted gap.end after
    → ((p : ℕ) → in_gaps p left ≡ (in_gaps p (gap ∷ after) && not (leb start p && ltb p end)))
    → Fills f gaps gaps'
Fills-left f before left gaps gaps' gap after start end old new stop from free starts ne s part p =
    let old_gap = in_gaps p (gap ∷ after) in
    let below : (p < start → old_gap ≡ false) ⊎ (start ≡ f.offset) = elim starts [
      | inl same ↦ inr same
      | inr same ↦
          inl (λ lt. in_gaps_below p gap.start (gap ∷ after) (omega arith, ne, s) (omega arith))
    ] in
    let whole : in_gaps p gaps ≡ (in_gaps p before || old_gap) =
      ap (in_gaps p) old ∙ in_gaps-append p before (gap ∷ after) in
    let taken : in_gaps p gaps'
        ≡ (in_gaps p before || (old_gap && not (leb start p && ltb p end))) =
      ap (in_gaps p) new
      ∙ (in_gaps-append p before left ∙ ap (λ (b : Bool). in_gaps p before || b) (part p)) in
    taken
    ∙ (from_offset p f.offset start end (in_gaps p before) old_gap from (free p) below
        ∙ (ap (λ (b : Bool). b && not (leb f.offset p && ltb p end)) (sym whole)
            ∙ ap (λ (t : ℕ). in_gaps p gaps && not (leb f.offset p && ltb p t)) stop))

-- After a frame was put into a gap, its bytes are out of the gaps, and no others are.
pub record Filling (f : StreamFrame) (s s' : StreamFrameSorter) : Type 0 where
  pub sorted : Sorted 0 s'.gaps
  pub fills : Fills f s.gaps s'.gaps
  pub queued : Queued (IsReceived s'.gaps) s'.queued_frames

pub fill-Filling :
    (f : StreamFrame) (before : List ByteInterval) (gap : ByteInterval) (after : List ByteInterval)
    (s : StreamFrameSorter)
    → f.offset + length f.bytes < 2 ^ 62
    → s.gaps ≡ before ++ (gap ∷ after)
    → ((p : ℕ) → f.offset ≤ p → in_gaps p before ≡ false)
    → gap.start < f.offset + length f.bytes
    → f.offset ≤ gap.end
    → 0 < length f.bytes
    → Sorted 0 s.gaps
    → Queued (IsReceived s.gaps) s.queued_frames
    → (fill f before gap after s).1 ≡ none
    → Filling f s (fill f before gap after s).0
unfolding fill data_len
fill-Filling f before gap after s bound split free inside reach some_bytes sorted queued success =
    let end = add64 f.offset (length f.bytes) in
    let plain : end ≡ f.offset + length f.bytes = omega arith in
    let g = cut_to gap.start f in
    let (from, from_gap, start, len) = cut_to_lem gap.start f bound inside in
    let e = find_end_gap end true gap after s.queued_frames in
    let (found, gaps, queue) = store_found_lem g end before gap e s success in
    let cut = cut_back e.0.end_gap.end end g in
    let left = shrink g.offset (cut_end e.0.end_gap.end end) gap e.0 ++ e.0.after in
    let (replace, ne, s') = Sorted-replace 0 before left gap after (rw split at sorted) in
    let v = find_end_gap-Ends end true gap after s.queued_frames (omega arith) ne s' found in
    let g_end : g.offset < end = elim start [ inl same ↦ omega arith | inr same ↦ omega arith ] in
    let g_reach : g.offset ≤ gap.end = elim start [
      | inl same ↦ omega arith
      | inr same ↦ omega arith
    ] in
    let part = λ (p : ℕ).
      shrink-in_gaps p g.offset end gap after e.0 (omega arith) from_gap g_reach g_end ne s' v in
    let new_gaps = (store_found g end before gap e s).0.gaps in
    let fills : Fills f s.gaps new_gaps =
      Fills-left f before left s.gaps new_gaps gap after g.offset end split gaps plain from free
        start ne s' part in
    let (same_start, shorter) = cut_back_lem e.0.end_gap.end end g in
    let old_queue =
      Queued-map (IsReceived s.gaps) (IsReceived new_gaps) e.0.queued_frames
        (λ x. IsReceived-Fills f s.gaps new_gaps x fills)
        (Queued-find_end_gap (IsReceived s.gaps) end true gap after s.queued_frames queued) in
    record {
      sorted =
          rw gaps
            (replace (shrink-Sorted g.offset end gap after e.0 (omega arith) from_gap g_end ne v));
      fills = fills;
      queued = rw queue (
          Queued-insert (IsReceived new_gaps) cut e.0.queued_frames
            (IsReceived-part f s.gaps new_gaps cut bound (omega arith) (omega arith) fills)
            old_queue);
    }
