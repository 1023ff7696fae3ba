-- ===== src/Element/RoundTrip/Rows.antt =====
-- Rows: the attributes that `pack_tuple_data` writes are read back, by the parsers of
-- protocol/element3.py and by `split_sized_data` of python/structlib.py.
use pg_cluster.Base.{
  ==-ne, All, Bytes, List, [], ap, append-nil, append_assoc, arith, bytes_eq, bytes_eq_refl,
  drop-append, false, length, length-append, ltb_irrefl, none, ok, refl, slice, slice-append, some,
  suc, take-append, zero, ℕ, ◌++◌, ◌+◌, ◌<◌, ◌∙◌, ◌∷◌, ◌≡◌, ◌≤◌,
}
use pg_cluster.Element.Attributes.{
  null_size, pack_attribute, pack_tuple_data, read_attribute, read_attributes,
}
use pg_cluster.Element.Message.{Datum}
use pg_cluster.Struct.{
  Generator, be2, be4, finished, sized_field, sized_round, split_sized_data, split_sized_loop,
  ulong_unpack, yields,
}
use pg_cluster.Struct.RoundTrip.{ulong_pack-ok, ulong_unpack-be4}

-- The size 0xffffffff stands for NULL, so data of that length is out of range.
abbrev pub IsDatum : Datum → Type 0
IsDatum none = Unit
IsDatum (some x) = length x < 4294967295

abbrev pub attribute_bytes : Datum → Bytes
attribute_bytes none = null_size
attribute_bytes (some x) = be4 (length x) ++ x

abbrev pub row_bytes : List Datum → Bytes
row_bytes [] = []
row_bytes (x ∷ xs) = attribute_bytes x ++ row_bytes xs

pub pack_attribute-ok : (x : Datum) → IsDatum x → pack_attribute x ≡ ok (attribute_bytes x)
unfolding pack_attribute
pack_attribute-ok none h = refl
pack_attribute-ok (some x) h = rw (ulong_pack-ok (length x) (omega arith))

pub pack_tuple_data-ok : (xs : List Datum) → All IsDatum xs → pack_tuple_data xs ≡ ok (row_bytes xs)
unfolding pack_tuple_data
pack_tuple_data-ok [] h = refl
pack_tuple_data-ok (x ∷ xs) h = rw (pack_attribute-ok x h.0, pack_tuple_data-ok xs h.1)

be4-ne-null : (n : ℕ) → n < 4294967295 → bytes_eq (be4 n) null_size ≡ false
unfolding bytes_eq be4
be4-ne-null n h = ground arith

pub length-be4 : (n : ℕ) → length (be4 n) ≡ 4
unfolding be4
length-be4 n = refl

pub length-be2 : (n : ℕ) → length (be2 n) ≡ 2
unfolding be2
length-be2 n = refl

ulong_unpack-be4_exact : (n : ℕ) → ulong_unpack (be4 n) ≡ ok n
ulong_unpack-be4_exact n = rw (append-nil) at (ulong_unpack-be4 n [])

module _ (front rest : Bytes) (off : ℕ) (at_front : off ≡ length front) where
  read_null : read_attribute (front ++ (null_size ++ rest)) off ≡ ok (none, off + 4)
  unfolding read_attribute
  read_null = rw (
    slice-append off (off + 4) front null_size rest at_front (omega (arith, at_front)),
    bytes_eq_refl null_size,
  )

  size_slice :
      (x : Bytes) → slice off (off + 4) (front ++ (be4 (length x) ++ (x ++ rest))) ≡ be4 (length x)
  size_slice x =
      slice-append off (off + 4) front (be4 (length x)) (x ++ rest) at_front
        (omega (arith, at_front, length-be4 (length x)))

  data_slice :
      (x : Bytes)
      → slice (off + 4) (off + 4 + length x) (front ++ (be4 (length x) ++ (x ++ rest))) ≡ x
  data_slice x = rw (append_assoc front (be4 (length x)) (x ++ rest)) at (
      slice-append (off + 4) (off + 4 + length x) (front ++ be4 (length x)) x rest
        (omega (arith, at_front, length-append front (be4 (length x)), length-be4 (length x)))
        (omega (arith, at_front, length-append front (be4 (length x)), length-be4 (length x))))

  read_some :
      (x : Bytes)
      → length x < 4294967295
      → read_attribute (front ++ ((be4 (length x) ++ x) ++ rest)) off
        ≡ ok (some x, off + 4 + length x)
  unfolding read_attribute
  read_some x h = rw (
    append_assoc (be4 (length x)) x rest,
    size_slice x,
    be4-ne-null (length x) h,
    ulong_unpack-be4_exact (length x),
    data_slice x,
  )

  pub read_attribute_lem :
      (x : Datum)
      → IsDatum x
      → read_attribute (front ++ (attribute_bytes x ++ rest)) off
        ≡ ok (x, off + length (attribute_bytes x))
  read_attribute_lem none h = read_null
  read_attribute_lem (some x) h =
      read_some x h
      ∙ ap (λ (n : ℕ). ok (some x, n))
          (omega (arith, length-append (be4 (length x)) x, length-be4 (length x)))

-- The loop reads the row that stands at the offset, and stops behind it.
pub read_attributes_lem :
    (front rest : Bytes) (off : ℕ) (xs : List Datum)
    → off ≡ length front
    → All IsDatum xs
    → read_attributes (length xs) (front ++ (row_bytes xs ++ rest)) off
      ≡ ok (xs, off + length (row_bytes xs))
unfolding read_attributes
read_attributes_lem front rest off [] e h = ap (λ (n : ℕ). ok ([], n)) (omega arith)
read_attributes_lem front rest off (x ∷ xs) e h =
    let a = attribute_bytes x in
    let r = row_bytes xs in
    let first =
      rw (← append_assoc a r rest) at (read_attribute_lem front (r ++ rest) off e x h.0) in
    let others =
      rw (append_assoc front a (r ++ rest), ← append_assoc a r rest) at
        (read_attributes_lem (front ++ a) rest (off + length a) xs
          (omega (arith, e, length-append front a)) h.1) in
    rw (first, others) (ap (λ (n : ℕ). ok (x ∷ xs, n)) (omega (arith, length-append a r)))

-- A row as the values of a generator.
abbrev pub yields_all : List Datum → Generator Datum
yields_all [] = finished
yields_all (x ∷ xs) = yields x (yields_all xs)

sized_field-append :
    (go : Bytes → Generator Datum) (x rest : Bytes)
    → length x < 4294967295
    → sized_field go (length x) (x ++ rest) ≡ yields (some x) (go rest)
unfolding sized_field
sized_field-append go x rest h = rw (
  ==-ne (length x) 4294967295 (omega arith),
  take-append x rest,
  drop-append x rest,
  ltb_irrefl (length x),
)

sized_field-null :
    (go : Bytes → Generator Datum) (rest : Bytes)
    → sized_field go 4294967295 rest ≡ yields none (go rest)
unfolding sized_field
sized_field-null go rest = refl

null_round : (rest : Bytes) → ulong_unpack (null_size ++ rest) ≡ ok 4294967295
unfolding ulong_unpack
null_round rest = refl

split_sized_loop-row :
    (fuel : ℕ) (xs : List Datum)
    → length (row_bytes xs) ≤ fuel
    → All IsDatum xs
    → split_sized_loop fuel (row_bytes xs) ≡ yields_all xs
unfolding split_sized_loop sized_round be4
split_sized_loop-row fuel [] h ds = refl
split_sized_loop-row zero (none ∷ xs) h ds = absurd (omega arith)
split_sized_loop-row zero (some x ∷ xs) h ds = absurd (omega arith)
split_sized_loop-row (suc fuel) (none ∷ xs) h ds =
    rw (null_round (row_bytes xs), sized_field-null (λ w. split_sized_loop fuel w) (row_bytes xs))
      (ap (λ g. yields none g) (split_sized_loop-row fuel xs (omega arith) ds.1))
split_sized_loop-row (suc fuel) (some x ∷ xs) h ds =
    rw
      (
        append_assoc (be4 (length x)) x (row_bytes xs),
        ulong_unpack-be4 (length x) (x ++ row_bytes xs),
        sized_field-append (λ w. split_sized_loop fuel w) x (row_bytes xs) ds.0,
      )
      (ap (λ g. yields (some x) g)
        (split_sized_loop-row fuel xs (omega (arith, length-append x (row_bytes xs))) ds.1))

-- `split_sized_data` yields exactly the attributes that were packed, and then ends.
pub split_sized_data-row :
    (xs : List Datum) → All IsDatum xs → split_sized_data (row_bytes xs) ≡ yields_all xs
unfolding split_sized_data
split_sized_data-row xs h = split_sized_loop-row (length (row_bytes xs)) xs (omega arith) h
