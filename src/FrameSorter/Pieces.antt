-- ===== src/FrameSorter/Pieces.antt =====
-- src/sa-ecf/stream_frame_sorter.go: whatever is queued is a piece of the stream, at its offset.
use ivsh.Common.{
  ℕ, ◌+◌, ◌-◌, ◌^◌, ◌≤◌, ◌<◌, ◌≡◌, refl, arith, List, [], ◌∷◌, ◌&&◌, Bool, true, false, Option,
  none, some, length, ltb, leb, ◌==◌, add64, sub64, Bool-cases, inl, inr,
}
use ivsh.Common.Assoc.{lookup}
use ivsh.Wire.StreamFrame.{StreamFrame, data_len}
use ivsh.FrameSorter.{
  ByteInterval, EndGap, Search, StreamFrameSorter, cut_front, cut_to, cut_back, enqueue,
  store_found, past_gap, Error, cut_old, duplicate, fill, find_end_gap, find_gap, found, not_found,
  push, push_found, push_empty, push_new, store, max_stream_frame_sorter_gaps,
}
use ivsh.FrameSorter.Queue.{Queued, Queued-insert, Queued-find_end_gap}
use ivsh.FrameSorter.Bytes.{length_take-le, Matches, Matches-drop, Matches-take, length-drop}

-- The frame holds bytes of the stream `d`, which ends below 2 ^ 62.
abbrev pub IsPiece : (ℕ → ℕ) → StreamFrame → Type 0
IsPiece d f = Matches d f.offset f.bytes × (f.offset + length f.bytes < 2 ^ 62)

abbrev pub Pieces : (ℕ → ℕ) → List (ℕ × StreamFrame) → Type 0
Pieces d = Queued (IsPiece d)

IsPiece-cut_front :
    (d : ℕ → ℕ) (n : ℕ) (f : StreamFrame)
    → n ≤ length f.bytes
    → IsPiece d f
    → IsPiece d (cut_front n f)
unfolding cut_front
IsPiece-cut_front d n f le (m, bound) =
    let plain : add64 f.offset n ≡ f.offset + n = omega arith in
    rw plain (Matches-drop d f.offset n f.bytes m, omega (arith, length-drop n f.bytes))

IsPiece-cut_back :
    (d : ℕ → ℕ) (gap_end end : ℕ) (f : StreamFrame)
    → IsPiece d f
    → IsPiece d (cut_back gap_end end f)
unfolding cut_back data_len
IsPiece-cut_back d gap_end end f (m, bound) = elim (Bool-cases (ltb gap_end end)) [
  | inl cut ↦
      let n = length f.bytes - sub64 end gap_end in
      rw cut (Matches-take d f.offset n f.bytes m, omega (arith, length_take-le n f.bytes))
  | inr whole ↦ rw whole (m, bound)
]

IsPiece-cut_to :
    (d : ℕ → ℕ) (start : ℕ) (f : StreamFrame)
    → IsPiece d f
    → start < f.offset + length f.bytes
    → IsPiece d (cut_to start f)
IsPiece-cut_to d start f p inside = elim (Bool-cases (ltb f.offset start)) [
  | inl cut ↦ rw cut (IsPiece-cut_front d (start - f.offset) f (omega arith) p)
  | inr whole ↦ rw whole p
]

Pieces-enqueue :
    (d : ℕ → ℕ) (f : StreamFrame) (gaps : List ByteInterval) (m : List (ℕ × StreamFrame))
    (s : StreamFrameSorter)
    → IsPiece d f
    → Pieces d m
    → Pieces d (enqueue f gaps m s).0.queued_frames
unfolding enqueue
Pieces-enqueue d f gaps m s p h =
    elim (Bool-cases (ltb max_stream_frame_sorter_gaps (length gaps))) [
      | inl many ↦ rw many h
      | inr few ↦ rw few (Queued-insert (IsPiece d) f m p h)
    ]

Pieces-store_found :
    (d : ℕ → ℕ) (f : StreamFrame) (end : ℕ) (before : List ByteInterval) (gap : ByteInterval)
    (e : EndGap × Option Error) (s : StreamFrameSorter)
    → IsPiece d f
    → Pieces d e.0.queued_frames
    → Pieces d (store_found f end before gap e s).0.queued_frames
unfolding store
Pieces-store_found d f end before gap (e, some failure) s p h = h
Pieces-store_found d f end before gap (e, none) s p h =
    Pieces-enqueue d (cut_back e.end_gap.end end f) _ e.queued_frames s
      (IsPiece-cut_back d e.end_gap.end end f p) h

Pieces-fill :
    (d : ℕ → ℕ) (f : StreamFrame) (before : List ByteInterval) (gap : ByteInterval)
    (after : List ByteInterval) (s : StreamFrameSorter)
    → IsPiece d f
    → gap.start < f.offset + length f.bytes
    → Pieces d s.queued_frames
    → Pieces d (fill f before gap after s).0.queued_frames
unfolding fill
Pieces-fill d f before gap after s p inside h =
    let end = add64 f.offset (data_len f) in
    Pieces-store_found d (cut_to gap.start f) end before gap
      (find_end_gap end true gap after s.queued_frames) s (IsPiece-cut_to d gap.start f p inside)
      (Queued-find_end_gap (IsPiece d) end true gap after s.queued_frames h)

-- The frame reaches into the gap that is found.
abbrev Inside : ℕ → Search → Type 0
Inside end duplicate = Unit {0}
Inside end not_found = Unit {0}
Inside end (found before gap after) = gap.start < end

Inside-past_gap :
    (end : ℕ) (g : ByteInterval) (r : Search) → Inside end r → Inside end (past_gap g r)
Inside-past_gap end g duplicate h = tt
Inside-past_gap end g not_found h = tt
Inside-past_gap end g (found before gap after) h = h

find_gap-Inside : (start end : ℕ) (gs : List ByteInterval) → Inside end (find_gap start end gs)
find_gap-Inside start end [] = tt
find_gap-Inside start end (g ∷ gs) =
    let rest = Inside-past_gap end g (find_gap start end gs) (find_gap-Inside start end gs) in
    elim (Bool-cases (leb end g.start)) [
      | inl below ↦ rw below tt
      | inr above ↦ elim (Bool-cases (ltb g.start end && leb start g.end)) [
        | inl here ↦ rw (above, here) (ground (arith, above))
        | inr later ↦ rw (above, later) rest
      ]
    ]

Pieces-push_found :
    (d : ℕ → ℕ) (f : StreamFrame) (r : Search) (s : StreamFrameSorter)
    → IsPiece d f
    → Inside (f.offset + length f.bytes) r
    → Pieces d s.queued_frames
    → Pieces d (push_found f r s).0.queued_frames
Pieces-push_found d f duplicate s p inside h = h
Pieces-push_found d f not_found s p inside h = h
Pieces-push_found d f (found before gap after) s p inside h =
    Pieces-fill d f before gap after s p inside h

abbrev PieceOrNone : (ℕ → ℕ) → Option StreamFrame → Type 0
PieceOrNone d none = Unit {0}
PieceOrNone d (some f) = IsPiece d f

cut_old-Piece :
    (d : ℕ → ℕ) (old : Option StreamFrame) (f : StreamFrame)
    → IsPiece d f
    → PieceOrNone d (cut_old old f)
unfolding cut_old data_len
cut_old-Piece d none f p = p
cut_old-Piece d (some old) f p = elim (Bool-cases (leb (data_len f) (data_len old))) [
  | inl smaller ↦ rw smaller tt
  | inr larger ↦ rw larger (IsPiece-cut_front d (data_len old) f (ground (arith, larger)) p)
]

Pieces-push_new :
    (d : ℕ → ℕ) (f : Option StreamFrame) (s : StreamFrameSorter)
    → PieceOrNone d f
    → Pieces d s.queued_frames
    → Pieces d (push_new f s).0.queued_frames
unfolding data_len
Pieces-push_new d none s p h = h
Pieces-push_new d (some f) s p h =
    let end : add64 f.offset (data_len f) ≡ f.offset + length f.bytes = omega (arith, p.1) in
    let inside = find_gap-Inside f.offset (f.offset + length f.bytes) s.gaps in
    rw end
      (Pieces-push_found d f (find_gap f.offset (f.offset + length f.bytes) s.gaps) s p inside h)

Pieces-push_empty :
    (d : ℕ → ℕ) (fin : Bool) (f : StreamFrame) (s : StreamFrameSorter)
    → IsPiece d f
    → Pieces d s.queued_frames
    → Pieces d (push_empty fin f s).0.queued_frames
Pieces-push_empty d true f s p h = Queued-insert (IsPiece d) f s.queued_frames p h
Pieces-push_empty d false f s p h = h

push_empty-read_position :
    (fin : Bool) (f : StreamFrame) (s : StreamFrameSorter)
    → (push_empty fin f s).0.read_position ≡ s.read_position
push_empty-read_position true f s = refl
push_empty-read_position false f s = refl

-- A frame that is a piece of the stream may be pushed.
pub push-Pieces :
    (d : ℕ → ℕ) (f : StreamFrame) (s : StreamFrameSorter)
    → IsPiece d f
    → Pieces d s.queued_frames
    → Pieces d (push f s).0.queued_frames
unfolding push
push-Pieces d f s p h = elim (Bool-cases (data_len f == 0)) [
  | inl empty ↦ rw empty (Pieces-push_empty d f.fin_bit f s p h)
  | inr full ↦
      let old = lookup f.offset s.queued_frames in
      rw full (Pieces-push_new d (cut_old old f) s (cut_old-Piece d old f p) h)
]

store_found-read_position :
    (f : StreamFrame) (end : ℕ) (before : List ByteInterval) (gap : ByteInterval)
    (e : EndGap × Option Error) (s : StreamFrameSorter)
    → (store_found f end before gap e s).0.read_position ≡ s.read_position
unfolding store enqueue
store_found-read_position f end before gap (e, some failure) s = refl
store_found-read_position f end before gap (e, none) s = ground arith

push_found-read_position :
    (f : StreamFrame) (r : Search) (s : StreamFrameSorter)
    → (push_found f r s).0.read_position ≡ s.read_position
unfolding fill
push_found-read_position f duplicate s = refl
push_found-read_position f not_found s = refl
push_found-read_position f (found before gap after) s =
    store_found-read_position (cut_to gap.start f) (add64 f.offset (data_len f)) before gap
      (find_end_gap (add64 f.offset (data_len f)) true gap after s.queued_frames) s

push_new-read_position :
    (f : Option StreamFrame) (s : StreamFrameSorter)
    → (push_new f s).0.read_position ≡ s.read_position
push_new-read_position none s = refl
push_new-read_position (some f) s =
    push_found-read_position f (find_gap f.offset (add64 f.offset (data_len f)) s.gaps) s

-- A push reads nothing.
pub push-read_position :
    (f : StreamFrame) (s : StreamFrameSorter) → (push f s).0.read_position ≡ s.read_position
unfolding push
push-read_position f s =
    let new = push_new-read_position (cut_old (lookup f.offset s.queued_frames) f) s in
    elim (Bool-cases (data_len f == 0)) [
      | inl empty ↦ rw empty (push_empty-read_position f.fin_bit f s)
      | inr full ↦ rw full new
    ]
