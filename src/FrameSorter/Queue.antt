-- ===== src/FrameSorter/Queue.antt =====
-- src/sa-ecf/stream_frame_sorter.go: properties of all queued frames.
use ivsh.Common.{
  ℕ, ◌≡◌, refl, arith, List, [], ◌∷◌, Bool, false, some, leb, ◌==◌, Bool-cases, inl, inr,
}
use mathlib.Core.Path.{subst}
use ivsh.Common.Assoc.{lookup, insert, erase}
use ivsh.Wire.StreamFrame.{StreamFrame}
use ivsh.FrameSorter.{ByteInterval, find_end_gap}

-- Every frame has the property, and its key is its offset.
abbrev pub Queued : (StreamFrame → Type 0) → List (ℕ × StreamFrame) → Type 0
Queued P [] = Unit {0}
Queued P ((key, f) ∷ m) = (key ≡ f.offset) × P f × Queued P m

pub Queued-insert :
    (P : StreamFrame → Type 0) (f : StreamFrame) (m : List (ℕ × StreamFrame))
    → P f
    → Queued P m
    → Queued P (insert f.offset f m)
Queued-insert P f [] p h = (refl, p, tt)
Queued-insert P f ((key, g) ∷ m) p (e, q, h) = elim (Bool-cases (key == f.offset)) [
  | inl same ↦ rw same (refl, p, h)
  | inr other ↦ rw other (e, q, Queued-insert P f m p h)
]

pub Queued-erase :
    (P : StreamFrame → Type 0) (k : ℕ) (m : List (ℕ × StreamFrame))
    → Queued P m
    → Queued P (erase k m)
Queued-erase P k [] h = tt
Queued-erase P k ((key, g) ∷ m) (e, q, h) = elim (Bool-cases (key == k)) [
  | inl same ↦ rw same (Queued-erase P k m h)
  | inr other ↦ rw other (e, q, Queued-erase P k m h)
]

pub Queued-lookup :
    (P : StreamFrame → Type 0) (k : ℕ) (f : StreamFrame) (m : List (ℕ × StreamFrame))
    → lookup k m ≡ some f
    → Queued P m
    → (f.offset ≡ k) × P f
Queued-lookup P k f [] h p = absurd (cc)
Queued-lookup P k f ((key, g) ∷ m) h (e, q, p) = elim (Bool-cases (key == k)) [
  | inl same ↦
      let here : some g ≡ some f = rw same at h in
      let at_key : g.offset ≡ k = ground (arith, e, same) in
      let eq : g ≡ f = cc here in subst (λ (x : StreamFrame). (x.offset ≡ k) × P x) eq (at_key, q)
  | inr other ↦ Queued-lookup P k f m (rw other at h) p
]

pub Queued-find_end_gap :
    (P : StreamFrame → Type 0) (end : ℕ) (is_first : Bool) (g : ByteInterval)
    (gs : List ByteInterval) (m : List (ℕ × StreamFrame))
    → Queued P m
    → Queued P (find_end_gap end is_first g gs m).0.queued_frames
Queued-find_end_gap P end is_first g [] m h = h
Queued-find_end_gap P end is_first g (n ∷ gs) m h = elim (Bool-cases (leb g.end end)) [
  | inl covered ↦ elim (Bool-cases (leb end n.start)) [
    | inl stops ↦ rw (covered, stops) h
    | inr more ↦
        rw (covered, more)
          (Queued-find_end_gap P end false n gs (erase g.end m) (Queued-erase P g.end m h))
  ]
  | inr inside ↦ rw inside h
]

pub Queued-map :
    (P Q : StreamFrame → Type 0) (m : List (ℕ × StreamFrame))
    → ((f : StreamFrame) → P f → Q f)
    → Queued P m
    → Queued Q m
Queued-map P Q [] g h = tt
Queued-map P Q ((key, f) ∷ m) g (e, p, h) = (e, g f p, Queued-map P Q m g h)
