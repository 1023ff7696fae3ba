-- ===== src/Text/Chunks.antt =====
-- `chunk` and `find` of tools/pg_cluster_backend/psc/postgresql/python/itertools.py.
use pg_cluster.Base.{
  ==_iff, Bool, Bool-cases, List, Option, [], ap, append-nil, arith, drop, if◌then◌else◌, inl, inr,
  length, length-drop, length-take_le, length-take_le_length, none, some, suc, take,
  take-append-drop, take-short, zero, ℕ, ◌++◌, ◌<◌, ◌==◌, ◌∙◌, ◌∷◌, ◌≡◌,
}

-- The chunks that `chunk` yields: it goes on while a chunk is full. A round of a positive size
-- consumes an element, so the fuel of `chunk` is enough.
unfoldable pub chunks_with {ℓ} : {A : Type ℓ} → ℕ → ℕ → List A → List (List A)
chunks_with zero n xs = []
chunks_with (suc fuel) n xs =
    let last = take n xs in
    let rest = chunks_with fuel n (drop n xs) in if length last == n then last ∷ rest else last ∷ []

unfoldable pub chunk {ℓ} : {A : Type ℓ} → ℕ → List A → List (List A)
chunk n xs = chunks_with (suc (length xs)) n xs

unfoldable pub find {ℓ} : {A : Type ℓ} → (A → Bool) → List A → Option A
find selector [] = none
find selector (x ∷ xs) = let rest = find selector xs in if selector x then some x else rest

abbrev pub joined_chunks {ℓ} : {A : Type ℓ} → List (List A) → List A
joined_chunks [] = []
joined_chunks (x ∷ xs) = x ++ joined_chunks xs

-- Full chunks, and then one that is not full.
abbrev pub IsChunked {ℓ} : {A : Type ℓ} → ℕ → List (List A) → Type 0
IsChunked n [] = ⊥
IsChunked n (x ∷ []) = length x < n
IsChunked n (x ∷ y ∷ xs) = (length x ≡ n) × IsChunked n (y ∷ xs)

IsChunked-cons {ℓ} :
    {A : Type ℓ} (n : ℕ) (x : List A) (xs : List (List A))
    → length x ≡ n
    → IsChunked n xs
    → IsChunked n (x ∷ xs)
IsChunked-cons n x [] e h = absurd h
IsChunked-cons n x (y ∷ xs) e h = (e, h)

chunks_with_lem {ℓ} :
    {A : Type ℓ} (fuel n : ℕ) (xs : List A)
    → 0 < n
    → length xs < fuel
    → (joined_chunks (chunks_with fuel n xs) ≡ xs) × IsChunked n (chunks_with fuel n xs)
unfolding chunks_with
chunks_with_lem zero n xs h k = absurd (omega arith)
chunks_with_lem (suc fuel) n xs h k = elim (Bool-cases (length (take n xs) == n)) [
  | inl full ↦
      let size : length (take n xs) ≡ n = (==_iff (length (take n xs)) n).0 full in
      let fits : length (drop n xs) < fuel =
        omega (arith, length-drop n xs, length-take_le_length n xs) in
      let (all, shape) = chunks_with_lem fuel n (drop n xs) h fits in
      rw full (
        ap (λ t. take n xs ++ t) all ∙ take-append-drop n xs,
        IsChunked-cons n (take n xs) _ size shape,
      )
  | inr partial ↦
      let short : length (take n xs) < n = let most = length-take_le n xs in ground arith in
      rw partial (append-nil (take n xs) ∙ take-short n xs short, short)
]

-- The chunks hold the elements in order; every chunk is full but the last, which is not.
pub chunk-IsChunked {ℓ} :
    {A : Type ℓ} (n : ℕ) (xs : List A)
    → 0 < n
    → (joined_chunks (chunk n xs) ≡ xs) × IsChunked n (chunk n xs)
unfolding chunk
chunk-IsChunked n xs h = chunks_with_lem (suc (length xs)) n xs h (omega arith)
