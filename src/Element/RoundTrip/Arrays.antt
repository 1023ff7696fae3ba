-- ===== src/Element/RoundTrip/Arrays.antt =====
-- The fixed-size arrays of protocol/element3.py: type identifiers and formats.
use pg_cluster.Base.{
  All, Bytes, List, [], append-nil, arith, drop, length, length-append, ok, refl, slice,
  slice-append, ℕ, ◌*◌, ◌++◌, ◌<◌, ◌∷◌, ◌≡◌,
}
use pg_cluster.Element.Fields.{concat, join_all, read_formats, read_ulongs, read_ushorts}
use pg_cluster.Element.RoundTrip.Rows.{length-be2, length-be4}
use pg_cluster.Struct.{be2, be4, ulong_pack, ulong_unpack, ushort_pack, ushort_unpack}
use pg_cluster.Struct.RoundTrip.{ulong_pack-ok, ulong_unpack-be4, ushort_pack-ok, ushort_unpack-be2}

abbrev pub IsUlong : ℕ → Type 0
IsUlong x = x < 4294967296

abbrev pub IsUshort : ℕ → Type 0
IsUshort x = x < 65536

abbrev pub IsPair : Bytes → Type 0
IsPair x = length x ≡ 2

abbrev pub ulong_bytes : List ℕ → Bytes
ulong_bytes [] = []
ulong_bytes (x ∷ xs) = be4 x ++ ulong_bytes xs

abbrev pub ushort_bytes : List ℕ → Bytes
ushort_bytes [] = []
ushort_bytes (x ∷ xs) = be2 x ++ ushort_bytes xs

pub join_all-ulong : (xs : List ℕ) → All IsUlong xs → join_all ulong_pack xs ≡ ok (ulong_bytes xs)
unfolding join_all
join_all-ulong [] h = refl
join_all-ulong (x ∷ xs) h = rw (ulong_pack-ok x h.0, join_all-ulong xs h.1)

pub join_all-ushort :
    (xs : List ℕ) → All IsUshort xs → join_all ushort_pack xs ≡ ok (ushort_bytes xs)
unfolding join_all
join_all-ushort [] h = refl
join_all-ushort (x ∷ xs) h = rw (ushort_pack-ok x h.0, join_all-ushort xs h.1)

pub length-ulong_bytes : (xs : List ℕ) → length (ulong_bytes xs) ≡ length xs * 4
length-ulong_bytes [] = omega arith
length-ulong_bytes (x ∷ xs) =
    omega (arith, length-append (be4 x) (ulong_bytes xs), length-be4 x, length-ulong_bytes xs)

pub length-ushort_bytes : (xs : List ℕ) → length (ushort_bytes xs) ≡ length xs * 2
length-ushort_bytes [] = omega arith
length-ushort_bytes (x ∷ xs) =
    omega (arith, length-append (be2 x) (ushort_bytes xs), length-be2 x, length-ushort_bytes xs)

pub drop-be4 : (x : ℕ) (rest : Bytes) → drop 4 (be4 x ++ rest) ≡ rest
unfolding be4
drop-be4 x rest = refl

pub drop-be2 : (x : ℕ) (rest : Bytes) → drop 2 (be2 x ++ rest) ≡ rest
unfolding be2
drop-be2 x rest = refl

pub slice-be4 : (x : ℕ) (rest : Bytes) → slice 0 4 (be4 x ++ rest) ≡ be4 x
slice-be4 x rest = slice-append 0 4 [] (be4 x) rest refl (omega (arith, length-be4 x))

pub slice-be2 : (x : ℕ) (rest : Bytes) → slice 0 2 (be2 x ++ rest) ≡ be2 x
slice-be2 x rest = slice-append 0 2 [] (be2 x) rest refl (omega (arith, length-be2 x))

pub ulong_unpack-exact : (x : ℕ) → ulong_unpack (be4 x) ≡ ok x
ulong_unpack-exact x = rw append-nil at (ulong_unpack-be4 x [])

pub ushort_unpack-exact : (x : ℕ) → ushort_unpack (be2 x) ≡ ok x
ushort_unpack-exact x = rw append-nil at (ushort_unpack-be2 x [])

pub read_ulongs-bytes : (xs : List ℕ) → read_ulongs (length xs) (ulong_bytes xs) ≡ ok xs
unfolding read_ulongs
read_ulongs-bytes [] = refl
read_ulongs-bytes (x ∷ xs) =
    rw (ulong_unpack-be4 x (ulong_bytes xs), drop-be4 x (ulong_bytes xs), read_ulongs-bytes xs)

pub read_ushorts-bytes : (xs : List ℕ) → read_ushorts (length xs) (ushort_bytes xs) ≡ ok xs
unfolding read_ushorts
read_ushorts-bytes [] = refl
read_ushorts-bytes (x ∷ xs) =
    rw (ushort_unpack-be2 x (ushort_bytes xs), drop-be2 x (ushort_bytes xs), read_ushorts-bytes xs)

pub length-concat : (xs : List Bytes) → All IsPair xs → length (concat xs) ≡ 2 * length xs
length-concat [] h = omega arith
length-concat (x ∷ xs) h = omega (arith, length-append x (concat xs), length-concat xs h.1, h.0)

-- Two-byte strings are read back one by one.
pub read_formats-concat :
    (xs : List Bytes) → All IsPair xs → read_formats (length xs) (concat xs) ≡ ok xs
unfolding read_formats
read_formats-concat [] h = refl
read_formats-concat ((a ∷ b ∷ []) ∷ xs) h = rw (read_formats-concat xs h.1)
read_formats-concat ([] ∷ xs) h = absurd (omega (arith, h.0))
read_formats-concat ((a ∷ []) ∷ xs) h = absurd (omega (arith, h.0))
read_formats-concat ((a ∷ b ∷ c ∷ x) ∷ xs) h = absurd (omega (arith, h.0))
