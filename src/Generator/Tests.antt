-- ===== src/Generator/Tests.antt =====
-- src/sa-ecf/packet_number_generator.go: runs of the generator.
use ivsh.Common.{◌+◌, ◌≡◌, ◌⊎◌, refl, arith, List, [], ◌∷◌, none, some}
use ivsh.Generator.{
  PacketNumberGenerator, Random, generate_new_skip, get_random_number, new_packet_number_generator,
  peek, pop,
}
use ivsh.Generator.Numbers.{pop-gaps, pops, pops-new}

abbrev answers : List Random
answers = some (1, 2) ∷ none ∷ some (255, 255) ∷ []

-- The next number but one is to be skipped.
abbrev skipping : PacketNumberGenerator
skipping = record { average_period = 500; next = 9; next_to_skip = 10 }

skips : pops skipping answers ≡ 9 ∷ 11 ∷ 12 ∷ []
unfolding pops pop generate_new_skip get_random_number
skips = refl

pops-new_example : pops (new_packet_number_generator 500) answers ≡ 1 ∷ 2 ∷ 3 ∷ []
pops-new_example = pops-new 500 answers (omega arith)

pop-gaps_example :
    let (p1, n) = pop (some (1, 2)) skipping in
    let (p2, m) = pop none p1 in
    (n ≡ peek skipping) × (m ≡ peek p1) × ((m ≡ n + 1) ⊎ ((m ≡ n + 2) × (peek p2 ≡ m + 1)))
pop-gaps_example = pop-gaps skipping (some (1, 2)) none (omega arith)
