-- ===== src/Generator/Numbers.antt =====
-- src/sa-ecf/packet_number_generator.go: which numbers are skipped.
use ivsh.Common.{
  ℕ, ◌+◌, ◌^◌, ◌≤◌, ◌<◌, ◌≡◌, ◌⊎◌, inl, inr, add64, ap, ◌∙◌, refl, arith, List, [], ◌∷◌, Option,
  none, some, length,
}
use ivsh.Generator.{
  PacketNumberGenerator, Random, generate_new_skip, get_random_number, new_packet_number_generator,
  peek, pop, skip_from,
}

-- The numbers of the packets in a run, one for each answer of the random source.
unfoldable pub pops : PacketNumberGenerator → List Random → List ℕ
unfolding pop
pops p [] = []
pops p (random ∷ randoms) = let (p', n) = pop random p in n ∷ pops p' randoms

-- `n`, its successor and so on.
abbrev pub from {ℓ} : {A : Type ℓ} → ℕ → List A → List ℕ
from n [] = []
from n (x ∷ xs) = n ∷ from (n + 1) xs

-- With no number chosen for skipping, a pop moves on by 1.
pop-plain :
    (p : PacketNumberGenerator) (random : Random)
    → p.next_to_skip ≡ 0
    → p.next + 1 < 2 ^ 64
    → ((pop random p).0.next ≡ p.next + 1) × ((pop random p).0.next_to_skip ≡ p.next_to_skip)
unfolding pop
pop-plain p random none_set room = ground arith

no_skip :
    (p : PacketNumberGenerator) (randoms : List Random)
    → p.next_to_skip ≡ 0
    → p.next + length randoms < 2 ^ 64
    → pops p randoms ≡ from p.next randoms
unfolding pops
no_skip p [] none_set room = refl
no_skip p (random ∷ randoms) none_set room =
    let plain = pop-plain p random none_set (omega arith) in
    let rest = no_skip (pop random p).0 randoms (plain.1 ∙ none_set) (rw plain.0 (omega arith)) in
    ap (λ (l : List ℕ). p.next ∷ l) (rest ∙ ap (λ (n : ℕ). from n randoms) plain.0)

-- Whatever the random source answers, a new generator gives the successive numbers from 1 on: it
-- skips none, up to 2 ^ 64.
pub pops-new :
    (average_period : ℕ) (randoms : List Random)
    → 1 + length randoms < 2 ^ 64
    → pops (new_packet_number_generator average_period) randoms ≡ from 1 randoms
unfolding new_packet_number_generator
pops-new average_period randoms room =
    no_skip (new_packet_number_generator average_period) randoms refl room

skip_from_lem :
    (answer : Option ℕ) (p : PacketNumberGenerator)
    → p.next < 2 ^ 63
    → let p' = skip_from answer p in
      (p'.next ≡ p.next) × ((p'.next_to_skip ≡ p.next_to_skip) ⊎ (p.next + 2 ≤ p'.next_to_skip))
skip_from_lem none p small = (refl, inl refl)
skip_from_lem (some num) p small = (refl, inr (omega arith))

pop-cases :
    (p : PacketNumberGenerator) (random : Random)
    → p.next < 2 ^ 62
    → let p' = (pop random p).0 in
      ((p'.next ≡ p.next + 1) × (p'.next_to_skip ≡ p.next_to_skip))
      ⊎ ((p'.next ≡ p.next + 2)
          × (p.next + 1 ≡ p.next_to_skip)
          × ((p'.next_to_skip ≡ p.next_to_skip) ⊎ (p'.next + 2 ≤ p'.next_to_skip)))
unfolding pop generate_new_skip
pop-cases p random small =
    let skipped =
      skip_from_lem (get_random_number random) (record p { next = add64 (add64 p.next 1) 1 })
        (omega arith) in
    ground (arith, skipped)

pop-gives : (p : PacketNumberGenerator) (random : Random) → (pop random p).1 ≡ p.next
unfolding pop
pop-gives p random = refl

-- Below 2 ^ 62, a pop gives the next number, and the number after it is above it by 1 or 2; after
-- a step by 2 the next step is by 1, so that two numbers in a row are never skipped.
pub pop-gaps :
    (p : PacketNumberGenerator) (r1 r2 : Random)
    → p.next + 2 < 2 ^ 62
    → let (p1, n) = pop r1 p in
      let (p2, m) = pop r2 p1 in
      (n ≡ peek p) × (m ≡ peek p1) × ((m ≡ n + 1) ⊎ ((m ≡ n + 2) × (peek p2 ≡ m + 1)))
unfolding peek
pop-gaps p r1 r2 small = (
  pop-gives p r1,
  pop-gives (pop r1 p).0 r2,
  elim (pop-cases p r1 (omega arith)) [
    | inl (one, _) ↦ inl (rw (pop-gives p r1, pop-gives (pop r1 p).0 r2) one)
    | inr (two, skipped, later) ↦
        inr (rw (pop-gives p r1, pop-gives (pop r1 p).0 r2) (two, plain two skipped later))
  ],
)
  where
    plain :
        (pop r1 p).0.next ≡ p.next + 2
        → p.next + 1 ≡ p.next_to_skip
        → ((pop r1 p).0.next_to_skip ≡ p.next_to_skip)
          ⊎ ((pop r1 p).0.next + 2 ≤ (pop r1 p).0.next_to_skip)
        → (pop r2 (pop r1 p).0).0.next ≡ (pop r1 p).0.next + 1
    plain two skipped later = elim (pop-cases (pop r1 p).0 r2 (omega arith)) [
      | inl (one, _) ↦ one
      | inr (_, again, _) ↦ elim later [
        | inl same ↦ absurd (omega arith)
        | inr ahead ↦ absurd (omega arith)
      ]
    ]
