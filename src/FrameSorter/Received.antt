-- ===== src/FrameSorter/Received.antt =====
-- src/sa-ecf/stream_frame_sorter.go: each operation keeps the gaps outside of what is queued.
use ivsh.Common.{
  ℕ, ◌+◌, ◌^◌, ◌≤◌, ◌<◌, ◌≡◌, refl, ◌∙◌, arith, List, ◌&&◌, not, Bool, true, false, Option, none,
  some, length, ltb, leb, ◌==◌, add64, Bool-cases, inl, inr,
}
use ivsh.Common.Assoc.{lookup}
use ivsh.Wire.StreamFrame.{StreamFrame, data_len}
use ivsh.FrameSorter.{
  ByteInterval, Error, Search, StreamFrameSorter, cut_front, cut_old, duplicate, find_gap, found,
  new_stream_frame_sorter, not_found, pop, push, push_empty, push_found, take_out, push_new,
}
use ivsh.FrameSorter.Bytes.{length-drop}
use ivsh.FrameSorter.Gaps.{Says, Sorted, find_gap-Says, in_gaps}
use ivsh.FrameSorter.Filled.{Filling, IsReceived, fill-Filling}
use ivsh.FrameSorter.Queue.{Queued, Queued-erase, Queued-insert, Queued-lookup}

-- The gaps are sorted, and what is queued lies outside them.
pub record Inv (s : StreamFrameSorter) : Type 0 where
  pub sorted : Sorted 0 s.gaps
  pub queued : Queued (IsReceived s.gaps) s.queued_frames

pub new-Inv : Inv new_stream_frame_sorter
unfolding new_stream_frame_sorter
new-Inv = record { sorted = omega arith; queued = tt }

-- What is left of `f` when its known beginning is cut.
abbrev IsRest : List ByteInterval → StreamFrame → Option StreamFrame → Type 0
IsRest gaps f none = Unit {0}
IsRest gaps f (some g) =
    (f.offset ≤ g.offset)
    × (g.offset + length g.bytes ≡ f.offset + length f.bytes)
    × (0 < length g.bytes)
    × ((p : ℕ) → f.offset ≤ p → p < g.offset → in_gaps p gaps ≡ false)

cut_old-IsRest :
    (gaps : List ByteInterval) (old : Option StreamFrame) (f : StreamFrame)
    → f.offset + length f.bytes < 2 ^ 62
    → 0 < length f.bytes
    → ((g : StreamFrame) → old ≡ some g → (g.offset ≡ f.offset) × IsReceived gaps g)
    → IsRest gaps f (cut_old old f)
unfolding cut_old cut_front data_len
cut_old-IsRest gaps none f bound pos known =
    (omega arith, refl, pos, λ p from to. absurd (omega arith))
cut_old-IsRest gaps (some old) f bound pos known =
    let (same, (_, free)) = known old refl in
    let n = length old.bytes in
    elim (Bool-cases (leb (length f.bytes) n)) [
      | inl smaller ↦ rw smaller tt
      | inr larger ↦
          let more : n < length f.bytes = ground (arith, larger) in
          let plain : add64 f.offset n ≡ f.offset + n = omega arith in
          rw (larger, plain)
            (
              omega arith,
              omega (arith, length-drop n f.bytes),
              omega (arith, length-drop n f.bytes),
              λ p from to. free p (omega arith) (omega arith),
            )
    ]

no_success : {A : Type 0} {failure : Error} → some failure ≡ none → A
no_success h = absurd (contradiction h)
  where
    contradiction : {failure : Error} → some failure ≡ none → ⊥
    contradiction e = cc

push_found-Filling :
    (f : StreamFrame) (r : Search) (s : StreamFrameSorter)
    → f.offset + length f.bytes < 2 ^ 62
    → 0 < length f.bytes
    → Inv s
    → Says f.offset (f.offset + length f.bytes) s.gaps r
    → (push_found f r s).1 ≡ none
    → Filling f s (push_found f r s).0
push_found-Filling f duplicate s bound pos v says success = no_success success
push_found-Filling f not_found s bound pos v says success = no_success success
push_found-Filling f (found before gap after) s bound pos v (split, free, inside, reach) success =
    fill-Filling f before gap after s bound split free inside reach pos v.sorted v.queued success

-- The bytes that were cut are in no gap.
Filling-rest :
    (f g : StreamFrame) (s s' : StreamFrameSorter)
    → IsRest s.gaps f (some g)
    → Filling g s s'
    → Filling f s s'
Filling-rest f g s s' (from, len, pos, free) v = record {
  sorted = v.sorted;
  fills = λ p. v.fills p ∙ same p (in_gaps p s.gaps) (free p);
  queued = v.queued;
}
  where
    same :
        (p : ℕ) (b : Bool)
        → (f.offset ≤ p → p < g.offset → b ≡ false)
        → (b && not (leb g.offset p && ltb p (g.offset + length g.bytes)))
          ≡ (b && not (leb f.offset p && ltb p (f.offset + length f.bytes)))
    same p b free = ground arith

push_new-Filling :
    (f : StreamFrame) (g : Option StreamFrame) (s : StreamFrameSorter)
    → f.offset + length f.bytes < 2 ^ 62
    → Inv s
    → IsRest s.gaps f g
    → (push_new g s).1 ≡ none
    → Filling f s (push_new g s).0
unfolding data_len
push_new-Filling f none s bound v rest success = no_success success
push_new-Filling f (some g) s bound v (from, len, pos, free) success =
    let end = g.offset + length g.bytes in
    let plain : add64 g.offset (length g.bytes) ≡ end = omega arith in
    let says = find_gap-Says g.offset end 0 s.gaps v.sorted in
    let small : end < 2 ^ 62 = omega arith in
    Filling-rest f g s (push_new (some g) s).0 (from, len, pos, free)
      (rw plain (
        push_found-Filling g (find_gap g.offset end s.gaps) s small pos v says
          (rw plain at success)))

-- When Push accepts a nonempty frame that ends below 2 ^ 62, the gaps being sorted and no queued byte lying in one,
-- then exactly the bytes of the frame are taken out of the gaps, which stay sorted, and no queued byte
-- lies in a gap.
pub push-Filling :
    (f : StreamFrame) (s : StreamFrameSorter)
    → f.offset + length f.bytes < 2 ^ 62
    → 0 < length f.bytes
    → Inv s
    → (push f s).1 ≡ none
    → Filling f s (push f s).0
unfolding push data_len
push-Filling f s bound pos v success =
    let some_bytes : (length f.bytes == 0) ≡ false = ground arith in
    let old = lookup f.offset s.queued_frames in
    let rest =
      cut_old-IsRest s.gaps old f bound pos
        (λ g here. Queued-lookup (IsReceived s.gaps) f.offset g s.queued_frames here v.queued) in
    rw some_bytes (push_new-Filling f (cut_old old f) s bound v rest (rw some_bytes at success))

-- A frame without bytes fills nothing.
pub push_empty-Filling :
    (f : StreamFrame) (s : StreamFrameSorter)
    → f.offset + length f.bytes < 2 ^ 62
    → length f.bytes ≡ 0
    → Inv s
    → (push f s).1 ≡ none
    → Filling f s (push f s).0
unfolding push data_len
push_empty-Filling f s bound empty v success =
    let no_bytes : (length f.bytes == 0) ≡ true = ground arith in
    rw no_bytes (with_flag f.fin_bit (rw no_bytes at success))
  where
    nothing :
        (p : ℕ) (b : Bool) → b ≡ (b && not (leb f.offset p && ltb p (f.offset + length f.bytes)))
    nothing p b = ground arith

    with_flag : (fin : Bool) → (push_empty fin f s).1 ≡ none → Filling f s (push_empty fin f s).0
    with_flag true h = record {
      sorted = v.sorted;
      fills = λ p. nothing p (in_gaps p s.gaps);
      queued =
          Queued-insert (IsReceived s.gaps) f s.queued_frames
            (bound, λ p from to. absurd (omega arith)) v.queued;
    }
    with_flag false h = no_success h

pub pop-Inv : (s : StreamFrameSorter) → Inv s → Inv (pop s).0
unfolding pop
pop-Inv s v = taken (lookup s.read_position s.queued_frames)
  where
    taken : (f : Option StreamFrame) → Inv (take_out f s).0
    taken none = v
    taken (some f) = record {
      sorted = v.sorted;
      queued = Queued-erase (IsReceived s.gaps) f.offset s.queued_frames v.queued;
    }

pub pop-gaps : (s : StreamFrameSorter) → (pop s).0.gaps ≡ s.gaps
unfolding pop
pop-gaps s = taken (lookup s.read_position s.queued_frames)
  where
    taken : (f : Option StreamFrame) → (take_out f s).0.gaps ≡ s.gaps
    taken none = refl
    taken (some f) = refl
