-- ===== src/AckHandler/Sent/History.antt =====
-- src/sa-ecf/ackhandler/sent_packet_handler.go: taking packets out of the history, which is in the order of its
-- numbers.
use ivsh.Common.{
  ℕ, ◌+◌, ◌-◌, ◌≤◌, ◌<◌, ◌≡◌, refl, ap, arith, List, [], ◌∷◌, Bool, false, ltb, ◌==◌, if◌then◌else◌,
  Option, some, All, All-map, Among, filter, sum_of, length, inl, inr, Bool-cases,
}
use ivsh.AckHandler.Packet.{Packet}
use ivsh.AckHandler.Sent.State.{remove}
use ivsh.AckHandler.Sent.Loss.{find_lost, up_to, since, is_zero}
use ivsh.AckHandler.Sent.Newly.Filtered.{Ascending}

pub Ascending-mono : (a b : ℕ) (l : List Packet) → a ≤ b → Ascending b l → Ascending a l
Ascending-mono a b [] le v = tt
Ascending-mono a b (p ∷ ps) le (lt, v) = (omega arith, v)

pub Among-above :
    (a : ℕ) (p : Packet) (l : List Packet) → Ascending a l → Among p l → a < p.packet_number
Among-above a p [] v x = elim x [ ]
Among-above a p (q ∷ qs) (lt, v) (inl same) = rw same lt
Among-above a p (q ∷ qs) (lt, v) (inr later) =
    let rest = Among-above q.packet_number p qs v later in omega arith

pub remove-All : (P : Packet → Type 0) (n : ℕ) (l : List Packet) → All P l → All P (remove n l)
unfolding remove
remove-All P n [] h = tt
remove-All P n (p ∷ ps) (x, h) =
    let rest = remove-All P n ps h in
    elim (Bool-cases (p.packet_number == n)) [
      | inl here ↦ rw here h
      | inr later ↦ rw later (x, rest)
    ]

pub remove-Ascending : (n a : ℕ) (l : List Packet) → Ascending a l → Ascending a (remove n l)
unfolding remove
remove-Ascending n a [] v = tt
remove-Ascending n a (p ∷ ps) (lt, v) =
    let rest = remove-Ascending n p.packet_number ps v in
    elim (Bool-cases (p.packet_number == n)) [
      | inl here ↦ rw here (Ascending-mono a p.packet_number ps (omega arith) v)
      | inr later ↦ rw later (lt, rest)
    ]

pub length-remove : (n : ℕ) (l : List Packet) → length (remove n l) ≤ length l
unfolding remove
length-remove n [] = omega arith
length-remove n (p ∷ ps) = let rest = length-remove n ps in ground arith

-- A packet that is in the history is taken out once, and nothing else is.
pub sum_of-remove :
    (f : Packet → ℕ) (a : ℕ) (p : Packet) (l : List Packet)
    → Ascending a l
    → Among p l
    → sum_of f (remove p.packet_number l) + f p ≡ sum_of f l
unfolding remove
sum_of-remove f a p [] v x = elim x [ ]
sum_of-remove f a p (q ∷ qs) (lt, v) (inl same) = rw same (ground arith)
sum_of-remove f a p (q ∷ qs) (lt, v) (inr later) =
    let rest = sum_of-remove f q.packet_number p qs v later in
    let above = Among-above q.packet_number p qs v later in ground arith

pub Among-remove :
    (n : ℕ) (q : Packet) (l : List Packet) → n < q.packet_number → Among q l → Among q (remove n l)
unfolding remove
Among-remove n q [] lt x = elim x [ ]
Among-remove n q (p ∷ ps) lt (inl same) =
    let number : q.packet_number ≡ p.packet_number = ap (λ (r : Packet). r.packet_number) same in
    let other : p.packet_number == n ≡ false = ground arith in rw other (inl same)
Among-remove n q (p ∷ ps) lt (inr later) =
    let rest = Among-remove n q ps lt later in
    elim (Bool-cases (p.packet_number == n)) [
      | inl here ↦ rw here later
      | inr other ↦ rw other (inr rest)
    ]

-- Packets of the history, in the order of their numbers.
abbrev pub Chosen : ℕ → List Packet → List Packet → Type 0
Chosen a ps l = Ascending a ps × All (λ p. Among p l) ps

pub Chosen-remove :
    (a : ℕ) (p : Packet) (ps l : List Packet)
    → Chosen a (p ∷ ps) l
    → Chosen p.packet_number ps (remove p.packet_number l)
Chosen-remove a p ps l ((lt, v), (here, among)) = (v, go p.packet_number ps (omega arith) v among)
  where
    go :
        (b : ℕ) (qs : List Packet)
        → p.packet_number ≤ b
        → Ascending b qs
        → All (λ q. Among q l) qs
        → All (λ q. Among q (remove p.packet_number l)) qs
    go b [] le w h = tt
    go b (q ∷ qs) le (above, w) (x, h) =
        (Among-remove p.packet_number q l (omega arith) x, go q.packet_number qs (omega arith) w h)

pub Chosen-skip :
    (a : ℕ) (p : Packet) (ps l : List Packet)
    → a < p.packet_number
    → Chosen p.packet_number ps l
    → Chosen a ps (p ∷ l)
Chosen-skip a p ps l lt (v, among) =
    (Ascending-mono a p.packet_number ps (omega arith) v, All-map (λ q here. inr here) ps among)

pub Chosen-take :
    (a : ℕ) (p : Packet) (ps l : List Packet)
    → a < p.packet_number
    → Chosen p.packet_number ps l
    → Chosen a (p ∷ ps) (p ∷ l)
Chosen-take a p ps l lt (v, among) = ((lt, v), (inl refl, All-map (λ q here. inr here) ps among))

pub filter-Chosen :
    (test : Packet → Bool) (a : ℕ) (l : List Packet) → Ascending a l → Chosen a (filter test l) l
filter-Chosen test a [] v = (tt, tt)
filter-Chosen test a (p ∷ ps) (lt, v) =
    let rest = filter-Chosen test p.packet_number ps v in
    elim (Bool-cases (test p)) [
      | inl holds ↦ rw holds (Chosen-take a p _ ps lt rest)
      | inr fails ↦ rw fails (Chosen-skip a p _ ps lt rest)
    ]

pub find_lost-Chosen :
    (now delay largest : ℕ) (t : Option ℕ) (a : ℕ) (l : List Packet)
    → Ascending a l
    → Chosen a (find_lost now delay largest t l).0 l
unfolding find_lost
find_lost-Chosen now delay largest t a [] v = (tt, tt)
find_lost-Chosen now delay largest t a (p ∷ ps) (lt, v) =
    let later = if is_zero t then some (now + (delay - since now p.send_time)) else t in
    elim (Bool-cases (ltb largest p.packet_number)) [
      | inl behind ↦ rw behind (tt, tt)
      | inr up ↦ elim (Bool-cases (ltb delay (since now p.send_time))) [
        | inl late ↦
            rw (up, late)
              (Chosen-take a p _ ps lt (find_lost-Chosen now delay largest t p.packet_number ps v))
        | inr early ↦
            rw (up, early)
              (Chosen-skip a p _ ps lt
                (find_lost-Chosen now delay largest later p.packet_number ps v))
      ]
    ]

pub up_to-Chosen : (largest a : ℕ) (l : List Packet) → Ascending a l → Chosen a (up_to largest l) l
unfolding up_to
up_to-Chosen largest a [] v = (tt, tt)
up_to-Chosen largest a (p ∷ ps) (lt, v) =
    let rest = up_to-Chosen largest p.packet_number ps v in
    elim (Bool-cases (ltb largest p.packet_number)) [
      | inl behind ↦ rw behind (tt, tt)
      | inr up ↦ rw up (Chosen-take a p _ ps lt rest)
    ]
