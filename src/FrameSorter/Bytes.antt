-- ===== src/FrameSorter/Bytes.antt =====
-- src/sa-ecf/stream_frame_sorter.go: frames that are pieces of one stream stay pieces of it when they are
-- cut.
use ivsh.Common.{ℕ, zero, suc, ◌+◌, ◌-◌, ◌≤◌, ◌≡◌, arith, List, [], ◌∷◌, ◌++◌, length, take, drop}

-- `bs` are the bytes of the stream `d` from the offset `n` on.
abbrev pub Matches : (ℕ → ℕ) → ℕ → List ℕ → Type 0
Matches d n [] = Unit {0}
Matches d n (b ∷ bs) = (b ≡ d n) × Matches d (n + 1) bs

pub Matches-drop :
    (d : ℕ → ℕ) (n k : ℕ) (bs : List ℕ) → Matches d n bs → Matches d (n + k) (drop k bs)
Matches-drop d n zero bs h = let e : n + 0 ≡ n = omega arith in rw e h
Matches-drop d n (suc k) [] h = tt
Matches-drop d n (suc k) (b ∷ bs) (e, h) =
    let same : n + suc k ≡ n + 1 + k = omega arith in rw same (Matches-drop d (n + 1) k bs h)

pub Matches-take : (d : ℕ → ℕ) (n k : ℕ) (bs : List ℕ) → Matches d n bs → Matches d n (take k bs)
Matches-take d n zero bs h = tt
Matches-take d n (suc k) [] h = tt
Matches-take d n (suc k) (b ∷ bs) (e, h) = (e, Matches-take d (n + 1) k bs h)

pub Matches-append :
    (d : ℕ → ℕ) (n : ℕ) (bs cs : List ℕ)
    → Matches d n bs
    → Matches d (n + length bs) cs
    → Matches d n (bs ++ cs)
Matches-append d n [] cs h k = let e : n + 0 ≡ n = omega arith in rw e at k
Matches-append d n (b ∷ bs) cs (e, h) k =
    let same : n + suc (length bs) ≡ n + 1 + length bs = omega arith in
    (e, Matches-append d (n + 1) bs cs h (rw same at k))

pub length-drop : (k : ℕ) (bs : List ℕ) → length (drop k bs) ≡ length bs - k
length-drop zero bs = omega arith
length-drop (suc k) [] = omega arith
length-drop (suc k) (b ∷ bs) = omega (arith, length-drop k bs)

pub length_take-le : (k : ℕ) (bs : List ℕ) → length (take k bs) ≤ length bs
length_take-le zero bs = omega arith
length_take-le (suc k) [] = omega arith
length_take-le (suc k) (b ∷ bs) = omega (arith, length_take-le k bs)
