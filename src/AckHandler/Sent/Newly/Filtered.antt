-- ===== src/AckHandler/Sent/Newly/Filtered.antt =====
-- src/sa-ecf/ackhandler/sent_packet_handler.go: the packets that are listed as newly acknowledged are
-- those that the frame acknowledges.
use ivsh.Common.{
  ℕ, ◌≤◌, ◌<◌, ◌≡◌, refl, sym, ap, arith, List, [], ◌∷◌, Bool, true, false, not, ◌&&◌, ltb, leb,
  if◌then◌else◌, filter, inl, inr, Bool-cases,
}
use ivsh.Common.Result.{ok}
use ivsh.Wire.AckFrame.{AckRange, in_ranges}
use ivsh.AckHandler.Packet.{Packet}
use ivsh.AckHandler.Sent.Newly.{newly_acked, next_range, take_if_in_range}

-- Packet numbers rise along the history, from above `a`.
abbrev pub Ascending : ℕ → List Packet → Type 0
Ascending a [] = Unit {0}
Ascending a (p ∷ ps) = (a < p.packet_number) × Ascending p.packet_number ps

-- The ranges from the lowest to the highest, which reaches the largest acknowledged number.
abbrev pub Rising : ℕ → List AckRange → Type 0
Rising largest [] = Unit {0}
Rising largest (r ∷ []) = (r.first ≤ r.last) × (largest ≤ r.last)
Rising largest (r ∷ s ∷ rs) = (r.first ≤ r.last) × (r.last < s.first) × Rising largest (s ∷ rs)

abbrev pub within : List AckRange → ℕ → Bool
within [] n = true
within (r ∷ rs) n = in_ranges n (r ∷ rs)

abbrev pub accepts : ℕ → ℕ → List AckRange → ℕ → Bool
accepts lowest largest rs n = not (ltb n lowest) && not (ltb largest n) && within rs n

-- Ranges that are passed over hold none of the numbers to come.
next_range-within :
    (largest n m : ℕ) (rs : List AckRange)
    → Rising largest rs
    → n ≤ m
    → within (next_range n rs) m ≡ within rs m
next_range-within largest n m [] v le = refl
next_range-within largest n m (r ∷ []) v le = refl
next_range-within largest n m (r ∷ s ∷ rs) (f, l, v) le =
    let rest = next_range-within largest n m (s ∷ rs) v le in ground arith

next_range-Rising :
    (largest n : ℕ) (rs : List AckRange) → Rising largest rs → Rising largest (next_range n rs)
next_range-Rising largest n [] v = tt
next_range-Rising largest n (r ∷ []) v = v
next_range-Rising largest n (r ∷ s ∷ rs) (f, l, v) =
    let rest = next_range-Rising largest n (s ∷ rs) v in ground arith

below_first :
    (largest n : ℕ) (r : AckRange) (rs : List AckRange)
    → Rising largest (r ∷ rs)
    → n < r.first
    → in_ranges n (r ∷ rs) ≡ false
below_first largest n r [] v lt = ground arith
below_first largest n r (s ∷ rs) (f, l, v) lt =
    let rest = below_first largest n s rs v in ground arith

in_ranges-passed :
    (n : ℕ) (r : AckRange) (rs : List AckRange)
    → ltb r.last n ≡ true
    → in_ranges n (r ∷ rs) ≡ in_ranges n rs
in_ranges-passed n r rs passed = ground arith

in_ranges-first :
    (n : ℕ) (r : AckRange) (rs : List AckRange)
    → ltb r.last n ≡ false
    → in_ranges n rs ≡ false
    → in_ranges n (r ∷ rs) ≡ leb r.first n
in_ranges-first n r rs held rest = ground arith

-- At a range that is not passed over.
take_held :
    (p : Packet) (r : AckRange) (rs : List AckRange) (out : List Packet)
    → ltb r.last p.packet_number ≡ false
    → take_if_in_range p (r ∷ rs) (ok out)
      ≡ ok (if leb r.first p.packet_number then p ∷ out else out)
take_held p r rs out held = rw (held, take_if_in_range) (ground arith)

-- A packet up to the largest number is taken if a range holds it, and is never a wrong one.
take_if_in_range_lem :
    (largest : ℕ) (p : Packet) (rs : List AckRange) (out : List Packet)
    → Rising largest rs
    → p.packet_number ≤ largest
    → take_if_in_range p (next_range p.packet_number rs) (ok out)
      ≡ ok (if within rs p.packet_number then p ∷ out else out)
take_if_in_range_lem largest p [] out v le = refl
take_if_in_range_lem largest p (r ∷ []) out v le =
    rw (in_ranges-first p.packet_number r [] (ground arith) refl)
      (take_held p r [] out (ground arith))
take_if_in_range_lem largest p (r ∷ s ∷ rs) out (f, l, v) le =
    elim (Bool-cases (ltb r.last p.packet_number)) [
      | inl passed ↦
          rw (passed, next_range, in_ranges-passed p.packet_number r (s ∷ rs) passed)
            (take_if_in_range_lem largest p (s ∷ rs) out v le)
      | inr held ↦
          let low = below_first largest p.packet_number s rs v (ground arith) in
          rw (held, next_range, in_ranges-first p.packet_number r (s ∷ rs) held low)
            (take_held p r (s ∷ rs) out held)
    ]

-- Behind the largest number nothing is accepted.
none_accepted :
    (lowest largest a : ℕ) (rs : List AckRange) (ps : List Packet)
    → largest ≤ a
    → Ascending a ps
    → filter (λ p. accepts lowest largest rs p.packet_number) ps ≡ []
none_accepted lowest largest a rs [] le v = refl
none_accepted lowest largest a rs (p ∷ ps) le (lt, v) =
    let rest = none_accepted lowest largest p.packet_number rs ps (omega arith) v in ground arith

-- Ranges that are passed over change nothing for the packets to come.
filter-next_range :
    (lowest largest n : ℕ) (rs : List AckRange) (ps : List Packet)
    → Rising largest rs
    → Ascending n ps
    → filter (λ p. accepts lowest largest (next_range n rs) p.packet_number) ps
      ≡ filter (λ p. accepts lowest largest rs p.packet_number) ps
filter-next_range lowest largest n rs ps v w = go n ps (omega arith) w
  where
    go :
        (a : ℕ) (qs : List Packet)
        → n ≤ a
        → Ascending a qs
        → filter (λ p. accepts lowest largest (next_range n rs) p.packet_number) qs
          ≡ filter (λ p. accepts lowest largest rs p.packet_number) qs
    go a [] le u = refl
    go a (q ∷ qs) le (lt, u) =
        let rest = go q.packet_number qs (omega arith) u in
        rw (next_range-within largest n q.packet_number rs v (omega arith), rest) refl

pub newly_acked-filter :
    (lowest largest a : ℕ) (rs : List AckRange) (ps : List Packet)
    → Rising largest rs
    → Ascending a ps
    → newly_acked lowest largest rs ps
      ≡ ok (filter (λ p. accepts lowest largest rs p.packet_number) ps)
unfolding newly_acked
newly_acked-filter lowest largest a rs [] v w = refl
newly_acked-filter lowest largest a rs (p ∷ ps) v (lt, w) =
    let n = p.packet_number in
    elim (Bool-cases (ltb n lowest)) [
      | inl low ↦ rw (low, newly_acked) (newly_acked-filter lowest largest n rs ps v w)
      | inr high ↦ elim (Bool-cases (ltb largest n)) [
        | inl above ↦
            rw (high, newly_acked, above)
              (ap ok (sym (none_accepted lowest largest n rs ps (ground arith) w)))
        | inr inside ↦
            let rest =
              newly_acked-filter lowest largest n (next_range n rs) ps
                (next_range-Rising largest n rs v) w in
            rw (high, newly_acked, inside, rest, filter-next_range lowest largest n rs ps v w)
              (take_if_in_range_lem largest p rs _ v (ground arith))
      ]
    ]
