-- ===== src/Streams/Lists.antt =====
-- src/sa-ecf/streams_map.go: the slice of the open streams beside the map of the streams.
use ivsh.Common.{
  ℕ, zero, suc, ◌+◌, ◌≡◌, ◌≢◌, refl, sym, ap, arith, List, [], ◌∷◌, ◌++◌, none, some, ◌==◌, inl,
  inr, Bool-cases, All, sum_of,
}
use ivsh.Common.Assoc.{lookup, insert, erase}
use ivsh.Streams.Walk.{index_of, delete_at}

abbrev pub keys : {S : Type 0} → List (ℕ × S) → List ℕ
keys [] = []
keys (entry ∷ m) = entry.0 ∷ keys m

abbrev pub Absent : ℕ → List ℕ → Type 0
Absent id l = All (λ k. k ≢ id) l

abbrev pub Distinct : List ℕ → Type 0
Distinct [] = Unit {0}
Distinct (id ∷ ids) = Absent id ids × Distinct ids

pub All-append : (P : ℕ → Type 0) (l : List ℕ) (id : ℕ) → All P l → P id → All P (l ++ (id ∷ []))
All-append P [] id h x = (x, tt)
All-append P (k ∷ l) id (y, h) x = (y, All-append P l id h x)

pub append-Distinct : (l : List ℕ) (id : ℕ) → Absent id l → Distinct l → Distinct (l ++ (id ∷ []))
append-Distinct [] id h v = (tt, tt)
append-Distinct (k ∷ l) id (other, h) (a, v) =
    (All-append (λ j. j ≢ k) l id a (λ same. other (sym same)), append-Distinct l id h v)

pub delete_at-All : (P : ℕ → Type 0) (n : ℕ) (l : List ℕ) → All P l → All P (delete_at n l)
delete_at-All P n [] h = tt
delete_at-All P zero (k ∷ l) (x, h) = h
delete_at-All P (suc n) (k ∷ l) (x, h) = (x, delete_at-All P n l h)

pub delete_at-Distinct : (n : ℕ) (l : List ℕ) → Distinct l → Distinct (delete_at n l)
delete_at-Distinct n [] v = tt
delete_at-Distinct zero (k ∷ l) (a, v) = v
delete_at-Distinct (suc n) (k ∷ l) (a, v) = (delete_at-All _ n l a, delete_at-Distinct n l v)

module _ {S : Type 0} where
  pub lookup-Absent : (id : ℕ) (m : List (ℕ × S)) → Absent id (keys m) → lookup id m ≡ none
  lookup-Absent id [] h = refl
  lookup-Absent id (entry ∷ m) (other, h) =
      let rest = lookup-Absent id m h in
      elim (Bool-cases (entry.0 == id)) [
        | inl here ↦ elim (other (ground (arith, here))) [ ]
        | inr later ↦ rw later rest
      ]

  pub keys-insert :
      (id : ℕ) (s : S) (m : List (ℕ × S))
      → Absent id (keys m)
      → keys (insert id s m) ≡ keys m ++ (id ∷ [])
  keys-insert id s [] h = refl
  keys-insert id s (entry ∷ m) (other, h) =
      let rest = keys-insert id s m h in
      elim (Bool-cases (entry.0 == id)) [
        | inl here ↦ elim (other (ground (arith, here))) [ ]
        | inr later ↦ rw later (ap (λ (l : List ℕ). entry.0 ∷ l) rest)
      ]

  erase-Absent : (id : ℕ) (m : List (ℕ × S)) → Absent id (keys m) → erase id m ≡ m
  erase-Absent id [] h = refl
  erase-Absent id (entry ∷ m) (other, h) =
      let rest = erase-Absent id m h in
      elim (Bool-cases (entry.0 == id)) [
        | inl here ↦ elim (other (ground (arith, here))) [ ]
        | inr later ↦ rw later (ap (λ (l : List (ℕ × S)). entry ∷ l) rest)
      ]

  -- Erasing a key from the map deletes it from the slice.
  pub keys-erase :
      (id : ℕ) (m : List (ℕ × S))
      → Distinct (keys m)
      → keys (erase id m) ≡ delete_at (index_of id (keys m)) (keys m)
  keys-erase id [] v = refl
  keys-erase id (entry ∷ m) (a, v) =
      let rest = keys-erase id m v in
      elim (Bool-cases (entry.0 == id)) [
        | inl here ↦
            let same : entry.0 ≡ id = ground (arith, here) in
            rw here (ap (λ (l : List (ℕ × S)). keys l) (erase-Absent id m (rw same at a)))
        | inr later ↦ rw later (ap (λ (l : List ℕ). entry.0 ∷ l) rest)
      ]

  pub sum_of-delete_at :
      (f : ℕ → ℕ) (id : ℕ) (s : S) (m : List (ℕ × S))
      → lookup id m ≡ some s
      → sum_of f (delete_at (index_of id (keys m)) (keys m)) + f id ≡ sum_of f (keys m)
  sum_of-delete_at f id s [] found = cc
  sum_of-delete_at f id s (entry ∷ m) found =
      let rest = sum_of-delete_at f id s m in
      elim (Bool-cases (entry.0 == id)) [
        | inl here ↦ let same : entry.0 ≡ id = ground (arith, here) in rw (here, same) (omega arith)
        | inr later ↦
            let found' = rw later at found in let r = rest found' in rw later (omega arith)
      ]
