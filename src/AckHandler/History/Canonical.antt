-- ===== src/AckHandler/History/Canonical.antt =====
-- src/sa-ecf/ackhandler/received_packet_history.go: the intervals are determined by the set of
-- their members, so the order of arrival and duplicates leave no trace.
use ivsh.Common.{ℕ, ◌+◌, ◌-◌, ◌^◌, ◌<◌, ◌≡◌, refl, arith, List, [], ◌∷◌}
use ivsh.Wire.AckFrame.{AckRange, in_ranges}
use ivsh.AckHandler.History.{insert_packet}
use ivsh.AckHandler.History.Laws.{
  Below, in_ranges-Below, in_ranges-insert_packet, insert_packet-Below,
}

abbrev SameMembers : List AckRange → List AckRange → Type 0
SameMembers l m = (n : ℕ) → in_ranges n l ≡ in_ranges n m

heads_agree :
    (b : ℕ) (r s : AckRange) (rs ss : List AckRange)
    → Below b (r ∷ rs)
    → Below b (s ∷ ss)
    → SameMembers (r ∷ rs) (s ∷ ss)
    → (r.first ≡ s.first) × (r.last ≡ s.last)
heads_agree b r s rs ss (rf, rl, rw') (sf, sl, sw) h =
    let last_eq = last in
    (
      ground (
        arith,
        last_eq,
        h (r.first - 1),
        h (s.first - 1),
        in_ranges-Below (r.first - 1) r.first rs rw',
        in_ranges-Below (s.first - 1) s.first ss sw,
      ),
      last_eq,
    )
  where
    last : r.last ≡ s.last
    last = ground (
      arith,
      h r.last,
      h s.last,
      in_ranges-Below r.last s.first ss sw,
      in_ranges-Below s.last r.first rs rw',
    )

tails_agree :
    (b : ℕ) (r s : AckRange) (rs ss : List AckRange)
    → Below b (r ∷ rs)
    → Below b (s ∷ ss)
    → SameMembers (r ∷ rs) (s ∷ ss)
    → SameMembers rs ss
tails_agree b r s rs ss v w h n =
    let (first, last) = heads_agree b r s rs ss v w h in
    ground (arith, h n, in_ranges-Below n r.first rs v.2, in_ranges-Below n s.first ss w.2)

-- Sorted lists of intervals that do not touch are equal if they have the same members.
pub eq_of_members : (b : ℕ) (l m : List AckRange) → Below b l → Below b m → SameMembers l m → l ≡ m
eq_of_members b [] [] v w h = refl
eq_of_members b [] (s ∷ ss) v w h = ground (arith, h s.last)
eq_of_members b (r ∷ rs) [] v w h = ground (arith, h r.last)
eq_of_members b (r ∷ rs) (s ∷ ss) v w h =
    let (first, last) = heads_agree b r s rs ss v w h in
    let rest = eq_of_members r.first rs ss v.2 (rw first w.2) (tails_agree b r s rs ss v w h) in
    ground (arith, first, last, rest)

-- Packets may arrive in any order: from intervals that are sorted and apart, two packet numbers
-- between 1 and the bound leave the same intervals in either order.
pub insert_packet_comm :
    (p q b : ℕ) (l : List AckRange)
    → 0 < p
    → 0 < q
    → p + 1 < b
    → q + 1 < b
    → b < 2 ^ 64
    → Below b l
    → insert_packet p (insert_packet q l) ≡ insert_packet q (insert_packet p l)
insert_packet_comm p q b l hp hq pb qb hb w =
    eq_of_members b _ _ (insert_packet-Below p b _ pb hb hp after_q)
      (insert_packet-Below q b _ qb hb hq after_p) members
  where
    after_p : Below b (insert_packet p l)
    after_p = insert_packet-Below p b l pb hb hp w

    after_q : Below b (insert_packet q l)
    after_q = insert_packet-Below q b l qb hb hq w

    members :
        SameMembers (insert_packet p (insert_packet q l)) (insert_packet q (insert_packet p l))
    members n =
        rw
          (
            in_ranges-insert_packet p b n _ pb hb hp after_q,
            in_ranges-insert_packet q b n l qb hb hq w,
            in_ranges-insert_packet q b n _ qb hb hq after_p,
            in_ranges-insert_packet p b n l pb hb hp w,
          )
          (ground arith)
