-- ===== src/Text/Bytea.antt =====
-- tools/pg_cluster_backend/psc/postgresql/encodings/bytea.py. A string is a list of code points;
-- `isdigit` and the digits and spaces that `int` takes are those of ASCII.
use pg_cluster.Base.{
  ==_iff, All, Bool, Bool-cases, Bytes, IsByte, Outcome, [], ap, arith, false, if◌then◌else◌, inl,
  inr, leb, ltb, lt→ltb, ok, raise, refl, struct_error, true, value_error, ℕ, ◌%◌, ◌&&◌, ◌*◌, ◌++◌,
  ◌+◌, ◌-◌, ◌/◌, ◌<◌, ◌==◌, ◌>>=◌, ◌||◌, ◌∷◌, ◌≡◌,
}

-- `ord_to_seq`
unfoldable pub ord_to_seq : ℕ → Bytes
ord_to_seq i =
    if ltb 32 i && ltb i 126
    then if i == 92 then 92 ∷ 92 ∷ [] else i ∷ []
    else 92 ∷ (48 + i / 64) ∷ (48 + i / 8 % 8) ∷ (48 + i % 8) ∷ []

-- `decode`
unfoldable pub decode : Bytes → Bytes
decode [] = []
decode (x ∷ xs) = ord_to_seq x ++ decode xs

-- Where `encode` stands in an escape sequence, with the digits read.
pub data Place : Type 0 where
  outside : Place
  behind_backslash : Place
  behind_one : ℕ → Place
  behind_two : ℕ → ℕ → Place

unfoldable pub is_digit : ℕ → Bool
is_digit c = leb 48 c && leb c 57

unfoldable pub is_octal : ℕ → Bool
is_octal c = leb 48 c && leb c 55

unfoldable pub is_space : ℕ → Bool
is_space c = (leb 9 c && leb c 13) || (leb 28 c && leb c 32)

-- `int(os, base = 8)` of three characters, the first a digit: spaces may stand at the end, and one
-- underscore between digits.
unfoldable pub octal_int : ℕ → ℕ → ℕ → Outcome ℕ
octal_int y a b =
    if is_octal y && is_octal a && is_octal b
    then ok ((y - 48) * 64 + (a - 48) * 8 + (b - 48))
    else if is_octal y && is_octal a && is_space b
    then ok ((y - 48) * 8 + (a - 48))
    else if is_octal y && is_space a && is_space b
    then ok (y - 48)
    else if is_octal y && (a == 95) && is_octal b
    then ok ((y - 48) * 8 + (b - 48))
    else raise value_error

-- The loop of `encode`: what it appends to `output`.
unfoldable pub scan : Place → Bytes → Outcome Bytes
scan outside [] = ok []
scan _ [] = raise value_error
scan outside (x ∷ xs) =
    let rest = scan outside xs in
    let escaped = scan behind_backslash xs in
    if x == 92 then escaped else (rest >>= λ out. ok (x ∷ out))
scan behind_backslash (y ∷ xs) =
    let rest = scan outside xs in
    let digits = scan (behind_one y) xs in
    if y == 92
    then (rest >>= λ out. ok (92 ∷ out))
    else if is_digit y
    then digits
    else raise value_error
scan (behind_one y) (a ∷ xs) = scan (behind_two y a) xs
scan (behind_two y a) (b ∷ xs) =
    let rest = scan outside xs in (octal_int y a b >>= λ x. rest >>= λ out. ok (x ∷ out))

-- `struct.pack` of unsigned bytes
unfoldable pub pack_bytes : Bytes → Outcome Bytes
pack_bytes [] = ok []
pack_bytes (x ∷ xs) =
    let rest = pack_bytes xs in
    if ltb x 256 then (rest >>= λ out. ok (x ∷ out)) else raise struct_error

-- `encode`
unfoldable pub encode : Bytes → Outcome Bytes
encode xs = scan outside xs >>= pack_bytes

octal_int-digits : (i : ℕ) → i < 256 → octal_int (48 + i / 64) (48 + i / 8 % 8) (48 + i % 8) ≡ ok i
unfolding octal_int is_octal
octal_int-digits i h =
    let p : leb (48 + i / 64) 55 ≡ true = ground arith in
    let q : leb (48 + i / 8 % 8) 55 ≡ true = ground arith in
    let r : leb (48 + i % 8) 55 ≡ true = ground arith in
    let l : leb 48 (48 + i / 64) ≡ true = ground arith in
    let m : leb 48 (48 + i / 8 % 8) ≡ true = ground arith in
    let n : leb 48 (48 + i % 8) ≡ true = ground arith in rw (l, m, n, p, q, r) (ap ok (omega arith))

scan-octal :
    (i : ℕ) (rest : Bytes)
    → i < 256
    → scan outside (92 ∷ (48 + i / 64) ∷ (48 + i / 8 % 8) ∷ (48 + i % 8) ∷ rest)
      ≡ (scan outside rest >>= λ out. ok (i ∷ out))
unfolding scan is_digit
scan-octal i rest h =
    let p : ((48 + i / 64) == 92) ≡ false = ground arith in
    let q : leb (48 + i / 64) 57 ≡ true = ground arith in
    let r : leb 48 (48 + i / 64) ≡ true = ground arith in rw (p, r, q, octal_int-digits i h) refl

scan-ord_to_seq :
    (i : ℕ) (rest : Bytes)
    → IsByte i
    → scan outside (ord_to_seq i ++ rest) ≡ (scan outside rest >>= λ out. ok (i ∷ out))
unfolding ord_to_seq
scan-ord_to_seq i rest h = elim (Bool-cases (ltb 32 i && ltb i 126)) [
  | inl printed ↦ rw printed (elim (Bool-cases (i == 92)) [
    | inl slash ↦ rw slash (let e : i ≡ 92 = (==_iff i 92).0 slash in rw e (unfold scan in refl))
    | inr plain ↦ rw plain (unfold scan in rw plain refl)
  ])
  | inr other ↦ rw other (scan-octal i rest h)
]

scan-decode : (xs : Bytes) → All IsByte xs → scan outside (decode xs) ≡ ok xs
unfolding decode scan
scan-decode [] h = refl
scan-decode (x ∷ xs) h = rw (scan-ord_to_seq x (decode xs) h.0, scan-decode xs h.1) refl

pack_bytes-All : (xs : Bytes) → All IsByte xs → pack_bytes xs ≡ ok xs
unfolding pack_bytes
pack_bytes-All [] h = refl
pack_bytes-All (x ∷ xs) h = rw (lt→ltb x 256 h.0, pack_bytes-All xs h.1) refl

-- `encode` undoes `decode` on every byte string.
pub encode-decode : (xs : Bytes) → All IsByte xs → encode (decode xs) ≡ ok xs
unfolding encode
encode-decode xs h = rw (scan-decode xs h) (pack_bytes-All xs h)
