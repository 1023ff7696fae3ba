-- ===== src/Text/Quoting.antt =====
-- tools/pg_cluster_backend/psc/postgresql/string.py: quotation of literals and identifiers.
use pg_cluster.Base.{
  ==-refl, ==_iff, Bool, Bool-cases, Bytes, List, Outcome, [], ap, arith, drop, false,
  if◌then◌else◌, inl, inr, leb, length, length-append, map, not, ok, raise, refl, sym, take,
  take-append, true, value_error, ℕ, ◌&&◌, ◌++◌, ◌-◌, ◌==◌, ◌||◌, ◌∷◌, ◌≡◌,
}

-- `text.replace(q, qq)` for a character q
unfoldable pub double : ℕ → Bytes → Bytes
double q [] = []
double q (x ∷ xs) = let rest = double q xs in if x == q then q ∷ q ∷ rest else x ∷ rest

-- `text.replace(qq, q)`, from the left; `held` where the character before was a q that is not
-- part of a pair yet.
unfoldable pub halve : ℕ → Bool → Bytes → Bytes
halve q held [] = if held then q ∷ [] else []
halve q held (x ∷ xs) =
    let free = halve q false xs in
    let again = halve q true xs in
    if x == q then if held then q ∷ free else again else if held then q ∷ x ∷ free else x ∷ free

unfoldable pub escape_literal : Bytes → Bytes
escape_literal text = double 39 text

unfoldable pub quote_literal : Bytes → Bytes
quote_literal text = 39 ∷ (double 39 text ++ 39 ∷ [])

unfoldable pub escape_ident : Bytes → Bytes
escape_ident text = double 34 text

unfoldable pub quote_ident : Bytes → Bytes
quote_ident text = 34 ∷ (double 34 text ++ 34 ∷ [])

-- `isalnum` and `isdecimal` on ASCII, which the model's texts are
unfoldable pub is_decimal : ℕ → Bool
is_decimal c = leb 48 c && leb c 57

unfoldable pub is_alnum : ℕ → Bool
is_alnum c = is_decimal c || (leb 65 c && leb c 90) || (leb 97 c && leb c 122)

-- `text.replace('_', 'a').isalnum()` of a text that is not empty
unfoldable pub is_word : Bytes → Bool
is_word [] = true
is_word (x ∷ xs) = (x == 95 || is_alnum x) && is_word xs

unfoldable pub needs_quoting : Bytes → Bool
needs_quoting [] = true
needs_quoting (x ∷ xs) = is_decimal x || not (is_word (x ∷ xs))

unfoldable pub quote_ident_if_needed : Bytes → Bytes
quote_ident_if_needed text = if needs_quoting text then quote_ident text else text

-- `qname`, and `qname_if_needed` with `quote_ident_if_needed`
unfoldable pub join_dots : (Bytes → Bytes) → List Bytes → Bytes
join_dots f [] = []
join_dots f (x ∷ []) = f x
join_dots f (x ∷ y ∷ xs) = f x ++ 46 ∷ join_dots f (y ∷ xs)

unfoldable pub qname : List Bytes → Bytes
qname xs = join_dots quote_ident xs

unfoldable pub qname_if_needed : List Bytes → Bytes
qname_if_needed xs = join_dots quote_ident_if_needed xs

-- `x[1:-1]`
unfoldable pub strip_ends : Bytes → Bytes
strip_ends xs = take (length xs - 2) (drop 1 xs)

-- `x.startswith('"')`, `x.endswith('"')`
unfoldable pub begins : Bytes → Bool
begins [] = false
begins (c ∷ cs) = c == 34

unfoldable pub ends : Bytes → Bool
ends [] = false
ends (c ∷ []) = c == 34
ends (c ∷ d ∷ cs) = ends (d ∷ cs)

-- What `split_ident` makes of one part that has been stripped of spaces
unfoldable pub read_ident : (ℕ → ℕ) → Bytes → Outcome Bytes
read_ident lower x =
    if begins x
    then if ends x then ok (halve 34 false (strip_ends x)) else raise value_error
    else if needs_quoting x
    then raise value_error
    else ok (map lower x)

pub halve-double : (q : ℕ) (xs : Bytes) → halve q false (double q xs) ≡ xs
unfolding halve double
halve-double q [] = refl
halve-double q (x ∷ xs) = elim (Bool-cases (x == q)) [
  | inl hit ↦
      let e : x ≡ q = (==_iff x q).0 hit in
      rw (hit, ==-refl q, halve-double q xs) (ap (λ (c : ℕ). c ∷ xs) (sym e))
  | inr other ↦ rw (other, other, halve-double q xs) refl
]

ends-append : (xs : Bytes) → ends (xs ++ 34 ∷ []) ≡ true
unfolding ends
ends-append [] = refl
ends-append (x ∷ []) = refl
ends-append (x ∷ y ∷ xs) = ends-append (y ∷ xs)

strip_ends-append : (xs : Bytes) → strip_ends (34 ∷ (xs ++ 34 ∷ [])) ≡ xs
unfolding strip_ends
strip_ends-append xs =
    let size : length (34 ∷ (xs ++ 34 ∷ [])) - 2 ≡ length xs =
      omega (arith, length-append xs (34 ∷ [])) in
    rw size (take-append xs (34 ∷ []))

ends-cons : (x : ℕ) (xs : Bytes) → ends (x ∷ (xs ++ 34 ∷ [])) ≡ true
ends-cons x xs = ends-append (x ∷ xs)

-- A quoted identifier is read as the text that was quoted, whatever the text holds.
pub read_ident-quote_ident :
    (lower : ℕ → ℕ) (text : Bytes) → read_ident lower (quote_ident text) ≡ ok text
unfolding read_ident quote_ident begins
read_ident-quote_ident lower text =
    rw (ends-cons 34 (double 34 text), strip_ends-append (double 34 text), halve-double 34 text)
      refl
