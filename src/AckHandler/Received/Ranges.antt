-- ===== src/AckHandler/Received/Ranges.antt =====
-- src/sa-ecf/ackhandler/received_packet_history.go: the ends of the list of intervals, which the
-- handler puts into its frames.
use ivsh.Common.{
  ℕ, ◌+◌, ◌^◌, ◌≤◌, ◌<◌, ◌≡◌, inl, inr, refl, arith, List, [], ◌∷◌, true, ltb, if◌then◌else◌,
}
use ivsh.Wire.AckFrame.{AckRange, in_ranges}
use ivsh.AckHandler.History.{insert_packet, merge, delete_loop}
use ivsh.AckHandler.History.Laws.{Below, insert_packet-cases, delete_loop-cases}

-- The highest interval ends at `largest`; without an interval all is up to the lower limit.
abbrev pub Ends : ℕ → ℕ → List AckRange → Type 0
Ends largest lower [] = largest ≤ lower
Ends largest lower (r ∷ rs) = r.last ≡ largest

-- All intervals lie above `n`.
abbrev pub Above : ℕ → List AckRange → Type 0
Above n [] = Unit {0}
Above n (r ∷ rs) = (n < r.first) × Above n rs

abbrev pub NonEmpty : List AckRange → Type 0
NonEmpty [] = ⊥
NonEmpty (r ∷ rs) = Unit {0}

merge-Ends : (el : AckRange) (lower : ℕ) (rest : List AckRange) → Ends el.last lower (merge el rest)
merge-Ends el lower [] = refl
merge-Ends el lower (prev ∷ rest) = ground arith

merge-NonEmpty : (el : AckRange) (rest : List AckRange) → NonEmpty (merge el rest)
merge-NonEmpty el [] = tt
merge-NonEmpty el (prev ∷ rest) = ground arith

merge-Above :
    (n : ℕ) (el : AckRange) (rest : List AckRange)
    → n < el.first
    → Above n rest
    → Above n (merge el rest)
merge-Above n el [] h a = ground arith
merge-Above n el (prev ∷ rest) h a = ground arith

Above-mono : (m n : ℕ) (l : List AckRange) → m ≤ n → Above n l → Above m l
Above-mono m n [] h a = tt
Above-mono m n (r ∷ rs) h (x, y) = (omega arith, Above-mono m n rs h y)

module _ (p b : ℕ) (pos : 0 < p) (lt : p + 1 < b) (hb : b < 2 ^ 64) where
  pub insert_packet-Ends :
      (largest lower : ℕ) (l : List AckRange)
      → lower < p
      → Below b l
      → Ends largest lower l
      → Ends (if ltb largest p then p else largest) lower (insert_packet p l)
  insert_packet-Ends largest lower [] above w t = unfold insert_packet in ground arith
  insert_packet-Ends largest lower (el ∷ rest) above (f, l, w) t = ground (
    arith,
    insert_packet-cases p b el rest lt hb pos f l,
    merge-Ends (record el { last = p }) lower rest,
    merge-Ends (record el { first = p }) lower rest,
  )

  pub insert_packet-NonEmpty : (l : List AckRange) → Below b l → NonEmpty (insert_packet p l)
  insert_packet-NonEmpty [] w = unfold insert_packet in tt
  insert_packet-NonEmpty (el ∷ rest) (f, l, w) = ground (
    arith,
    insert_packet-cases p b el rest lt hb pos f l,
    merge-NonEmpty (record el { last = p }) rest,
    merge-NonEmpty (record el { first = p }) rest,
  )

pub insert_packet-Above :
    (p b lower : ℕ) (l : List AckRange)
    → 0 < p
    → p + 1 < b
    → b < 2 ^ 64
    → lower < p
    → Below b l
    → Above lower l
    → Above lower (insert_packet p l)
insert_packet-Above p b lower [] pos lt hb h w a = unfold insert_packet in ground arith
insert_packet-Above p b lower (el ∷ rest) pos lt hb h (f, l, w) (x, y) =
    elim (insert_packet-cases p b el rest lt hb pos f l) [
      | inl (_, _, e) ↦ rw e (x, y)
      | inr (inl (_, e)) ↦ rw e (merge-Above lower (record el { last = p }) rest x y)
      | inr (inr (inl (_, e))) ↦ rw e (merge-Above lower (record el { first = p }) rest h y)
      | inr (inr (inr (inl (_, e)))) ↦ rw e (h, (x, y))
      | inr (inr (inr (inr (below, e)))) ↦
          rw e (x, insert_packet-Above p el.first lower rest pos below (omega arith) h w y)
    ]

pub delete_loop-Ends :
    (p b largest lower : ℕ) (l : List AckRange)
    → p < 2 ^ 63
    → Below b l
    → NonEmpty l
    → Ends largest lower l
    → Ends largest p (delete_loop p l).0
delete_loop-Ends p b largest lower [] hp w ne e = absurd ne
delete_loop-Ends p b largest lower (el ∷ rest) hp w ne e =
    ground (arith, delete_loop-cases p b el rest hp w)

pub delete_loop-Above :
    (p b : ℕ) (l : List AckRange) → p < 2 ^ 63 → Below b l → Above p (delete_loop p l).0
delete_loop-Above p b [] hp w = unfold delete_loop in tt
delete_loop-Above p b (el ∷ rest) hp w =
    ground (arith, delete_loop-cases p b el rest hp w, delete_loop-Above p el.first rest hp w.2)

pub NonEmpty-of_member : (n : ℕ) (l : List AckRange) → in_ranges n l ≡ true → NonEmpty l
NonEmpty-of_member n [] h = cc
NonEmpty-of_member n (r ∷ rs) h = tt
