-- ===== src/AckHandler/History/Laws.antt =====
-- src/sa-ecf/ackhandler/received_packet_history.go: the intervals stay sorted and apart, and hold
-- exactly the packet numbers received and not deleted.
use ivsh.Common.{
  ℕ, ◌+◌, ◌^◌, ◌≤◌, ◌<◌, ◌≡◌, ◌⊎◌, refl, arith, List, [], ◌∷◌, true, ◌&&◌, ◌||◌, ltb, leb, ◌==◌,
  inl, inr, Bool-cases,
}
use ivsh.Wire.AckFrame.{AckRange, in_ranges}
use ivsh.AckHandler.History.{insert_packet, merge, delete_loop}

-- The intervals lie below `b`, fall along the list and do not touch.
abbrev pub Below : ℕ → List AckRange → Type 0
Below b [] = Unit {0}
Below b (r ∷ rs) = (r.first ≤ r.last) × (r.last + 1 < b) × Below r.first rs

pub Below-mono : (a b : ℕ) (l : List AckRange) → a ≤ b → Below a l → Below b l
Below-mono a b [] h w = tt
Below-mono a b (r ∷ rs) h (x, y, z) = (x, omega arith, z)

merge-Below :
    (b : ℕ) (el : AckRange) (rest : List AckRange)
    → el.first ≤ el.last
    → el.last + 1 < b
    → b < 2 ^ 64
    → Below (el.first + 1) rest
    → Below b (merge el rest)
merge-Below b el [] f l h w = (f, l, tt)
merge-Below b el (prev ∷ rest) f l h w = ground arith

-- No member of the list reaches the bound.
pub in_ranges-Below : (n b : ℕ) (l : List AckRange) → Below b l → in_ranges n l ≡ true → n + 1 < b
in_ranges-Below n b [] w h = cc
in_ranges-Below n b (r ∷ rs) w h = ground (arith, in_ranges-Below n r.first rs)

-- Merging joins two intervals that meet, and changes no member.
in_ranges-merge :
    (b n : ℕ) (el : AckRange) (rest : List AckRange)
    → el.first ≤ el.last
    → b < 2 ^ 64
    → el.last < b
    → Below (el.first + 1) rest
    → in_ranges n (merge el rest) ≡ in_ranges n (el ∷ rest)
in_ranges-merge b n el [] f hb l w = refl
in_ranges-merge b n el (prev ∷ rest) f hb l w = ground arith

-- What a round of the loop does, by where `p` lies.
pub insert_packet-cases :
    (p b : ℕ) (el : AckRange) (rest : List AckRange)
    → p + 1 < b
    → b < 2 ^ 64
    → 0 < p
    → el.first ≤ el.last
    → el.last + 1 < b
    → let l = insert_packet p (el ∷ rest) in
      ((el.first ≤ p) × (p ≤ el.last) × (l ≡ el ∷ rest))
      ⊎ (((el.last + 1 ≡ p) × (l ≡ merge (record el { last = p }) rest))
          ⊎ (((p + 1 ≡ el.first) × (l ≡ merge (record el { first = p }) rest))
              ⊎ (((el.last + 1 < p) × (l ≡ record { first = p; last = p } ∷ el ∷ rest))
                  ⊎ ((p + 1 < el.first) × (l ≡ el ∷ insert_packet p rest)))))
unfolding insert_packet
insert_packet-cases p b el rest h hb pos f t = ground arith

pub insert_packet-Below :
    (p b : ℕ) (l : List AckRange)
    → p + 1 < b
    → b < 2 ^ 64
    → 0 < p
    → Below b l
    → Below b (insert_packet p l)
insert_packet-Below p b [] h hb pos w = unfold insert_packet in omega arith
insert_packet-Below p b (el ∷ rest) h hb pos (f, t, w) = ground (
  arith,
  insert_packet-cases p b el rest h hb pos f t,
  insert_packet-Below p el.first rest,
  merge-Below b (record el { last = p }) rest,
  merge-Below b (record el { first = p }) rest,
  Below-mono el.first (el.first + 1) rest,
  Below-mono el.first (p + 1) rest,
)

pub in_ranges-insert_packet :
    (p b n : ℕ) (l : List AckRange)
    → p + 1 < b
    → b < 2 ^ 64
    → 0 < p
    → Below b l
    → in_ranges n (insert_packet p l) ≡ ((n == p) || in_ranges n l)
in_ranges-insert_packet p b n [] h hb pos w = unfold insert_packet in ground arith
in_ranges-insert_packet p b n (el ∷ rest) h hb pos (f, t, w) =
    elim (insert_packet-cases p b el rest h hb pos f t) [
      | inl (lo, hi, e) ↦ rw e (ground arith)
      | inr (inl (at, e)) ↦
          rw
            (
              e,
              in_ranges-merge b n (record el { last = p }) rest (omega arith) hb (omega arith)
                  (Below-mono el.first (el.first + 1) rest (omega arith) w),
            )
            (ground arith)
      | inr (inr (inl (at, e))) ↦
          rw
            (
              e,
              in_ranges-merge b n (record el { first = p }) rest (omega arith) hb (omega arith)
                  (Below-mono el.first (p + 1) rest (omega arith) w),
            )
            (ground arith)
      | inr (inr (inr (inl (above, e)))) ↦ rw e (ground arith)
      | inr (inr (inr (inr (below, e)))) ↦
          rw (e, in_ranges-insert_packet p el.first n rest below (omega arith) pos w) (ground arith)
    ]

-- What lies up to `p` is deleted whole.
delete_loop-all :
    (p b : ℕ) (l : List AckRange) → b ≤ p + 1 → Below b l → delete_loop p l ≡ ([], true)
unfolding delete_loop
delete_loop-all p b [] h w = refl
delete_loop-all p b (el ∷ rest) h (f, t, w) =
    rw (delete_loop-all p el.first rest (omega arith) w) (ground arith)

pub delete_loop-cases :
    (p b : ℕ) (el : AckRange) (rest : List AckRange)
    → p < 2 ^ 63
    → Below b (el ∷ rest)
    → let l = (delete_loop p (el ∷ rest)).0 in
      ((el.last ≤ p) × (l ≡ []))
      ⊎ (((el.first ≤ p) × (p < el.last) × (l ≡ record el { first = p + 1 } ∷ []))
          ⊎ ((p < el.first) × (l ≡ el ∷ (delete_loop p rest).0)))
unfolding delete_loop
delete_loop-cases p b el rest hp (f, t, w) = elim (Bool-cases (leb el.first p)) [
  | inl le ↦ ground (arith, delete_loop-all p el.first rest (ground arith) w)
  | inr gt ↦ ground arith
]

pub delete_loop-Below :
    (p b : ℕ) (l : List AckRange) → p < 2 ^ 63 → Below b l → Below b (delete_loop p l).0
delete_loop-Below p b [] hp w = unfold delete_loop in tt
delete_loop-Below p b (el ∷ rest) hp w =
    ground (arith, delete_loop-cases p b el rest hp w, delete_loop-Below p el.first rest hp w.2)

pub in_ranges-delete_loop :
    (p b n : ℕ) (l : List AckRange)
    → p < 2 ^ 63
    → Below b l
    → in_ranges n (delete_loop p l).0 ≡ (ltb p n && in_ranges n l)
in_ranges-delete_loop p b n [] hp w = unfold delete_loop in ground arith
in_ranges-delete_loop p b n (el ∷ rest) hp w = elim (delete_loop-cases p b el rest hp w) [
  | inl (le, e) ↦ rw e (ground (arith, in_ranges-Below n el.first rest w.2))
  | inr (inl (le, lt, e)) ↦ rw e (ground (arith, in_ranges-Below n el.first rest w.2))
  | inr (inr (lt, e)) ↦ rw e (ground (arith, in_ranges-delete_loop p el.first n rest hp w.2))
]
