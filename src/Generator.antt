-- ===== src/Generator.antt =====
-- src/sa-ecf/packet_number_generator.go: the numbers of the packets that are sent.
pub mod Numbers
mod Tests
use ivsh.Common.{
  ℕ, ◌+◌, ◌/◌, ◌%◌, ◌*◌, ◌^◌, List, [], ◌∷◌, Option, none, some, ◌==◌, if◌then◌else◌, add64, sub64,
  mul64,
}

pub record PacketNumberGenerator : Type 0 where
  pub average_period : ℕ
  pub next : ℕ
  pub next_to_skip : ℕ

unfoldable pub new_packet_number_generator : ℕ → PacketNumberGenerator
new_packet_number_generator average_period = record {
  average_period = average_period;
  next = 1;
  next_to_skip = 0;
}

unfoldable pub peek : PacketNumberGenerator → ℕ
peek p = p.next

-- The two bytes that the system's random source gave, if it did not fail.
abbrev pub Random : Type 0
Random = Option (ℕ × ℕ)

unfoldable pub get_random_number : Random → Option ℕ
get_random_number none = none
get_random_number (some (b0, b1)) = some ((b0 * 2 ^ 8 + b1) % 2 ^ 16)

abbrev pub skip_from : Option ℕ → PacketNumberGenerator → PacketNumberGenerator
skip_from none p = p
skip_from (some num) p =
    let skip = mul64 num (sub64 p.average_period 1) / 32767 in
    record p { next_to_skip = add64 (add64 p.next 2) skip }

unfoldable pub generate_new_skip : Random → PacketNumberGenerator → PacketNumberGenerator
unfolding get_random_number
generate_new_skip random p = skip_from (get_random_number random) p

-- Pop ignores the error of the random source.
unfoldable pub pop : Random → PacketNumberGenerator → PacketNumberGenerator × ℕ
unfolding generate_new_skip
pop random p =
    let next = add64 p.next 1 in
    (
      (if next == p.next_to_skip
          then generate_new_skip random (record p { next = add64 next 1 })
          else record p { next = next }),
      p.next,
    )
