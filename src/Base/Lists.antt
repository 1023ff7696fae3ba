-- ===== src/Base/Lists.antt =====
-- Lists measured by native numbers, Python's slices, and `bytes.split`.
use Prim.Native.Nat.{ℕ, zero, suc, ◌+◌, ◌-◌, ◌≤◌, ◌<◌}
use mathlib.Core.Path.{◌≡◌, refl, ap}
use mathlib.Core.Logic.{◌≢◌}
use mathlib.Core.Bool.{Bool, true, false, ◌&&◌}
use mathlib.Core.List.{List, [], ◌∷◌, ◌++◌}
use mathlib.Core.Option.{Option, none, some}
use native.Mathlib.Omega.{arith}
use pg_cluster.Base.Tests.{◌==◌, if◌then◌else◌, ==-refl, ==-ne}

module _ {ℓ} {A : Type ℓ} where
  abbrev pub length : List A → ℕ
  length [] = 0
  length (x ∷ xs) = suc (length xs)

  abbrev pub take : ℕ → List A → List A
  take zero xs = []
  take (suc n) [] = []
  take (suc n) (x ∷ xs) = x ∷ take n xs

  abbrev pub drop : ℕ → List A → List A
  drop zero xs = xs
  drop (suc n) [] = []
  drop (suc n) (x ∷ xs) = drop n xs

  abbrev pub get_elem? : List A → ℕ → Option A
  get_elem? [] i = none
  get_elem? (x ∷ xs) zero = some x
  get_elem? (x ∷ xs) (suc i) = get_elem? xs i

  abbrev pub replicate : ℕ → A → List A
  replicate zero a = []
  replicate (suc n) a = a ∷ replicate n a

  abbrev pub All {κ} : (A → Type κ) → List A → Type κ
  All P [] = Unit {κ}
  All P (x ∷ xs) = P x × All P xs

  pub length-append : (xs ys : List A) → length (xs ++ ys) ≡ length xs + length ys
  length-append [] ys = omega arith
  length-append (x ∷ xs) ys = omega (arith, length-append xs ys)

  -- `data[lo:hi]` for offsets that are not negative
  unfoldable pub slice : ℕ → ℕ → List A → List A
  slice lo hi xs = take (hi - lo) (drop lo xs)

module _ {ℓ} {A : Type ℓ} where
  pub take-append : (xs ys : List A) → take (length xs) (xs ++ ys) ≡ xs
  take-append [] ys = refl
  take-append (x ∷ xs) ys = ap (λ t. x ∷ t) (take-append xs ys)

  pub drop-append : (xs ys : List A) → drop (length xs) (xs ++ ys) ≡ ys
  drop-append [] ys = refl
  drop-append (x ∷ xs) ys = drop-append xs ys

  pub take-length : (xs : List A) → take (length xs) xs ≡ xs
  take-length [] = refl
  take-length (x ∷ xs) = ap (λ t. x ∷ t) (take-length xs)

  pub drop-length : (xs : List A) → drop (length xs) xs ≡ []
  drop-length [] = refl
  drop-length (x ∷ xs) = drop-length xs

  pub drop-nil : (n : ℕ) → ◌≡◌ {A = List A} (drop n []) []
  drop-nil zero = refl
  drop-nil (suc n) = refl

  pub drop-drop : (m n k : ℕ) (xs : List A) → k ≡ n + m → drop m (drop n xs) ≡ drop k xs
  drop-drop m zero k xs e = ap (λ (j : ℕ). drop j xs) (omega arith)
  drop-drop m (suc n) zero xs e = absurd (omega arith)
  drop-drop m (suc n) (suc k) [] e = drop-nil m
  drop-drop m (suc n) (suc k) (x ∷ xs) e = drop-drop m n k xs (omega arith)

  pub length-take : (n : ℕ) (xs : List A) → n ≤ length xs → length (take n xs) ≡ n
  length-take zero xs h = refl
  length-take (suc n) [] h = absurd (omega arith)
  length-take (suc n) (x ∷ xs) h = ap suc (length-take n xs (omega arith))

  pub length-drop : (n : ℕ) (xs : List A) → length (drop n xs) ≡ length xs - n
  length-drop zero xs = omega arith
  length-drop (suc n) [] = omega arith
  length-drop (suc n) (x ∷ xs) = omega (arith, length-drop n xs)

  pub length-take_le : (n : ℕ) (xs : List A) → length (take n xs) ≤ n
  length-take_le zero xs = omega arith
  length-take_le (suc n) [] = omega arith
  length-take_le (suc n) (x ∷ xs) = omega (arith, length-take_le n xs)

-- A byte string; an element is a byte where it is below 256.
abbrev pub Bytes : Type 0
Bytes = List ℕ

abbrev pub IsByte : ℕ → Type 0
IsByte b = b < 256

-- `a == b` on byte strings
unfoldable pub bytes_eq : Bytes → Bytes → Bool
bytes_eq [] [] = true
bytes_eq [] (y ∷ ys) = false
bytes_eq (x ∷ xs) [] = false
bytes_eq (x ∷ xs) (y ∷ ys) = (x == y) && bytes_eq xs ys

pub bytes_eq_refl : (xs : Bytes) → bytes_eq xs xs ≡ true
unfolding bytes_eq
bytes_eq_refl [] = refl
bytes_eq_refl (x ∷ xs) = ground (arith, bytes_eq_refl xs)

pub bytes_eq→eq : (xs ys : Bytes) → bytes_eq xs ys ≡ true → xs ≡ ys
unfolding bytes_eq
bytes_eq→eq [] [] h = refl
bytes_eq→eq [] (y ∷ ys) h = cc
bytes_eq→eq (x ∷ xs) [] h = cc
bytes_eq→eq (x ∷ xs) (y ∷ ys) h = ground (arith, bytes_eq→eq xs ys)

-- `xs.partition(sep)` where the separator occurs: what is before it, and what is behind it
unfoldable pub break_at : ℕ → Bytes → Option (Bytes × Bytes)
break_at sep [] = none
break_at sep (x ∷ xs) =
    let rest = break_at sep xs in
    if x == sep then some ([], xs) else elim rest [ none ↦ none | some (a, b) ↦ some (x ∷ a, b) ]

-- `xs.split(sep, n)`
unfoldable pub split_max : ℕ → ℕ → Bytes → List Bytes
split_max sep zero xs = xs ∷ []
split_max sep (suc n) xs = elim (break_at sep xs) [
  | none ↦ xs ∷ []
  | some (a, b) ↦ a ∷ split_max sep n b
]

-- A byte in front of the first piece.
abbrev pub cons_head : ℕ → List Bytes → List Bytes
cons_head x [] = (x ∷ []) ∷ []
cons_head x (p ∷ ps) = (x ∷ p) ∷ ps

-- `xs.split(sep)`
unfoldable pub split : ℕ → Bytes → List Bytes
split sep [] = [] ∷ []
split sep (x ∷ xs) = let rest = split sep xs in if x == sep then [] ∷ rest else cons_head x rest

-- No byte of the string is the separator.
abbrev pub Avoids : ℕ → Bytes → Type 0
Avoids sep xs = All (λ x. x ≢ sep) xs

pub break_at-append :
    (sep : ℕ) (xs ys : Bytes) → Avoids sep xs → break_at sep (xs ++ sep ∷ ys) ≡ some (xs, ys)
unfolding break_at
break_at-append sep [] ys h = ground (arith, ==-refl sep)
break_at-append sep (x ∷ xs) ys h = rw (==-ne x sep h.0, break_at-append sep xs ys h.1)

pub break_at-none : (sep : ℕ) (xs : Bytes) → Avoids sep xs → break_at sep xs ≡ none
unfolding break_at
break_at-none sep [] h = refl
break_at-none sep (x ∷ xs) h = rw (==-ne x sep h.0, break_at-none sep xs h.1)

pub split_max-append :
    (sep n : ℕ) (xs ys : Bytes)
    → Avoids sep xs
    → split_max sep (suc n) (xs ++ sep ∷ ys) ≡ xs ∷ split_max sep n ys
unfolding split_max
split_max-append sep n xs ys h = rw (break_at-append sep xs ys h, split_max)

pub split-append :
    (sep : ℕ) (xs ys : Bytes) → Avoids sep xs → split sep (xs ++ sep ∷ ys) ≡ xs ∷ split sep ys
unfolding split
split-append sep [] ys h = rw (==-refl sep)
split-append sep (x ∷ xs) ys h = rw (==-ne x sep h.0, split-append sep xs ys h.1)

pub split-Avoids : (sep : ℕ) (xs : Bytes) → Avoids sep xs → split sep xs ≡ xs ∷ []
unfolding split
split-Avoids sep [] h = refl
split-Avoids sep (x ∷ xs) h = rw (==-ne x sep h.0, split-Avoids sep xs h.1)

-- The slice of what stands between two parts.
pub slice-append {ℓ} :
    {A : Type ℓ} (lo hi : ℕ) (front mid rest : List A)
    → lo ≡ length front
    → hi ≡ length front + length mid
    → slice lo hi (front ++ (mid ++ rest)) ≡ mid
unfolding slice
slice-append lo hi front mid rest p q =
    let e : hi - lo ≡ length mid = omega arith in
    rw (e, p, drop-append front (mid ++ rest)) (take-append mid rest)

-- Dropping more than a front part drops from the rest.
pub drop-skip {ℓ} :
    {A : Type ℓ} (k n : ℕ) (front rest : List A)
    → k ≡ length front + n
    → drop k (front ++ rest) ≡ drop n rest
drop-skip k n [] rest e = ap (λ (j : ℕ). drop j rest) (omega arith)
drop-skip zero n (x ∷ front) rest e = absurd (omega arith)
drop-skip (suc k) n (x ∷ front) rest e = drop-skip k n front rest (omega arith)

pub take-append-drop {ℓ} : {A : Type ℓ} (n : ℕ) (xs : List A) → take n xs ++ drop n xs ≡ xs
take-append-drop zero xs = refl
take-append-drop (suc n) [] = refl
take-append-drop (suc n) (x ∷ xs) = ap (λ t. x ∷ t) (take-append-drop n xs)

-- A short read has read all that there is.
pub take-short {ℓ} : {A : Type ℓ} (n : ℕ) (xs : List A) → length (take n xs) < n → take n xs ≡ xs
take-short zero xs h = absurd (omega arith)
take-short (suc n) [] h = refl
take-short (suc n) (x ∷ xs) h = ap (λ t. x ∷ t) (take-short n xs (omega arith))

pub length-take_le_length {ℓ} : {A : Type ℓ} (n : ℕ) (xs : List A) → length (take n xs) ≤ length xs
length-take_le_length zero xs = omega arith
length-take_le_length (suc n) [] = omega arith
length-take_le_length (suc n) (x ∷ xs) = omega (arith, length-take_le_length n xs)

pub take-append_at {ℓ} :
    {A : Type ℓ} (n : ℕ) (xs ys : List A) → n ≡ length xs → take n (xs ++ ys) ≡ xs
take-append_at n xs ys e = rw e (take-append xs ys)

pub take-append_le {ℓ} :
    {A : Type ℓ} (n : ℕ) (xs ys : List A) → n ≤ length xs → take n (xs ++ ys) ≡ take n xs
take-append_le zero xs ys h = refl
take-append_le (suc n) [] ys h = absurd (omega arith)
take-append_le (suc n) (x ∷ xs) ys h = ap (λ t. x ∷ t) (take-append_le n xs ys (omega arith))

pub drop-append_le {ℓ} :
    {A : Type ℓ} (n : ℕ) (xs ys : List A) → n ≤ length xs → drop n (xs ++ ys) ≡ drop n xs ++ ys
drop-append_le zero xs ys h = refl
drop-append_le (suc n) [] ys h = absurd (omega arith)
drop-append_le (suc n) (x ∷ xs) ys h = drop-append_le n xs ys (omega arith)

pub Avoids-append :
    (sep : ℕ) (xs ys : Bytes) → Avoids sep xs → Avoids sep ys → Avoids sep (xs ++ ys)
Avoids-append sep [] ys h k = k
Avoids-append sep (x ∷ xs) ys h k = (h.0, Avoids-append sep xs ys h.1 k)
