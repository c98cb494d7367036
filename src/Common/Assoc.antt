-- ===== src/Common/Assoc.antt =====
-- Go's maps with numbers as keys, as association lists; the order of the list is the order in
-- which a loop over the map visits it.
use ivsh.Common.Tests.{◌==◌, if◌then◌else◌}
use Prim.Native.Nat.{ℕ, ◌+◌}
use mathlib.Core.Path.{◌≡◌}
use mathlib.Core.List.{List, [], ◌∷◌}
use mathlib.Core.Option.{Option, none, some}
use native.Mathlib.Omega.{arith}

module _ {ℓ} {V : Type ℓ} where
  abbrev pub lookup : ℕ → List (ℕ × V) → Option V
  lookup key [] = none
  lookup key (entry ∷ m) = if entry.0 == key then some entry.1 else lookup key m

  abbrev pub erase : ℕ → List (ℕ × V) → List (ℕ × V)
  erase key [] = []
  erase key (entry ∷ m) = if entry.0 == key then erase key m else entry ∷ erase key m

  -- The first entry of the key is replaced; a new key is added at the end.
  abbrev pub insert : ℕ → V → List (ℕ × V) → List (ℕ × V)
  insert key value [] = (key, value) ∷ []
  insert key value (entry ∷ m) =
      if entry.0 == key then (key, value) ∷ m else entry ∷ insert key value m

  pub lookup-insert :
      (key probe : ℕ) (v : V) (m : List (ℕ × V))
      → lookup probe (insert key v m) ≡ (if key == probe then some v else lookup probe m)
  lookup-insert key probe v [] = ground arith
  lookup-insert key probe v (entry ∷ m) =
      let rest = lookup-insert key probe v m in ground (arith, rest)

  pub lookup-erase :
      (k j : ℕ) (m : List (ℕ × V)) → lookup j (erase k m) ≡ (if k == j then none else lookup j m)
  lookup-erase k j [] = ground arith
  lookup-erase k j ((i, w) ∷ m) = ground (arith, lookup-erase k j m)

  -- The sum of a measure over the entries.
  abbrev pub total : (V → ℕ) → List (ℕ × V) → ℕ
  total f [] = 0
  total f ((k, v) ∷ m) = f v + total f m

  pub total-insert :
      (f : V → ℕ) (k : ℕ) (v w : V) (m : List (ℕ × V))
      → lookup k m ≡ some w
      → total f (insert k v m) + f w ≡ total f m + f v
  total-insert f k v w [] h = cc
  total-insert f k v w ((j, u) ∷ m) h = ground (arith, total-insert f k v w m)
