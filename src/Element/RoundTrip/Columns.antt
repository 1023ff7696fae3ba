-- ===== src/Element/RoundTrip/Columns.antt =====
-- The columns of a TupleDescriptor of protocol/element3.py.
use pg_cluster.Base.{
  All, Avoids, Bytes, List, [], append-nil, append_assoc, arith, break_at, break_at-append, drop,
  drop-skip, length, length-append, ok, refl, slice-append, some, ℕ, ◌++◌, ◌+◌, ◌∙◌, ◌∷◌, ◌≡◌,
}
use pg_cluster.Element.Backend.{name_and_rest, pack_column, read_columns, unpack_column}
use pg_cluster.Element.Fields.{join_all}
use pg_cluster.Element.Message.{Column}
use pg_cluster.Element.RoundTrip.Arrays.{IsUlong}
use pg_cluster.Element.RoundTrip.Rows.{length-be4}
use pg_cluster.Struct.{be4, long_unpack, short_unpack, ulong_unpack}
use pg_cluster.Struct.RoundTrip.{
  IsSigned, long_pack_lem, short_pack_lem, ulong_pack-ok, ulong_unpack-be4,
}

-- The columns of a TupleDescriptor.
pub record IsColumn (c : Column) : Type 0 where
  pub name_ok : Avoids 0 c.name
  pub relation_ok : IsUlong c.relation_id
  pub number_ok : IsSigned 32768 c.column_number
  pub type_ok : IsUlong c.type_id
  pub typlen_ok : IsSigned 32768 c.typlen
  pub typmod_ok : IsSigned 2147483648 c.typmod
  pub format_ok : IsSigned 32768 c.format

-- The six fixed fields of a column, and how each is read.
module _ (relation column type' len mod' form : Bytes) (relation4 : length relation ≡ 4)
    (column2 : length column ≡ 2) (type4 : length type' ≡ 4) (len2 : length len ≡ 2)
    (mod4 : length mod' ≡ 4) (form2 : length form ≡ 2) where
  abbrev fields : Bytes
  fields = relation ++ (column ++ (type' ++ (len ++ (mod' ++ form))))

  length-fields : length fields ≡ 18
  length-fields = omega (
    arith,
    length-append relation (column ++ (type' ++ (len ++ (mod' ++ form)))),
    length-append column (type' ++ (len ++ (mod' ++ form))),
    length-append type' (len ++ (mod' ++ form)),
    length-append len (mod' ++ form),
    length-append mod' form,
  )

  drop_relation :
      (n k : ℕ) → k ≡ 4 + n → drop k fields ≡ drop n (column ++ (type' ++ (len ++ (mod' ++ form))))
  drop_relation n k e = drop-skip k n relation _ (omega arith)

  drop_column : drop 6 fields ≡ type' ++ (len ++ (mod' ++ form))
  drop_column = drop_relation 2 6 refl ∙ drop-skip 2 0 column _ (omega arith)

  drop_type : drop 10 fields ≡ len ++ (mod' ++ form)
  drop_type =
      drop_relation 6 10 refl
      ∙ drop-skip 6 4 column _ (omega arith)
      ∙ drop-skip 4 0 type' _ (omega arith)

  drop_len : drop 12 fields ≡ mod' ++ form
  drop_len =
      drop_relation 8 12 refl
      ∙ drop-skip 8 6 column _ (omega arith)
      ∙ drop-skip 6 2 type' _ (omega arith)
      ∙ drop-skip 2 0 len _ (omega arith)

  drop_mod : drop 16 fields ≡ form
  drop_mod =
      drop_relation 12 16 refl
      ∙ drop-skip 12 10 column _ (omega arith)
      ∙ drop-skip 10 6 type' _ (omega arith)
      ∙ drop-skip 6 4 len _ (omega arith)
      ∙ drop-skip 4 0 mod' form (omega arith)

  unpack_fields :
      (c : Column)
      → ((rest : Bytes) → ulong_unpack (relation ++ rest) ≡ ok c.relation_id)
      → ((rest : Bytes) → short_unpack (column ++ rest) ≡ ok c.column_number)
      → ((rest : Bytes) → ulong_unpack (type' ++ rest) ≡ ok c.type_id)
      → ((rest : Bytes) → short_unpack (len ++ rest) ≡ ok c.typlen)
      → ((rest : Bytes) → long_unpack (mod' ++ rest) ≡ ok c.typmod)
      → ((rest : Bytes) → short_unpack (form ++ rest) ≡ ok c.format)
      → unpack_column c.name fields ≡ ok c
  unfolding unpack_column
  unpack_fields c r n t l m f =
      let f' = rw append-nil at (f []) in
      rw (
        length-fields,
        r _,
        drop_relation 0 4 refl,
        n _,
        drop_column,
        t _,
        drop_type,
        l _,
        drop_len,
        m _,
        drop_mod,
        f',
      )

-- A column in range is packed into its name, a NUL and 18 bytes, which unpack to the column.
pub pack_column_lem :
    (c : Column)
    → IsColumn c
    → (b : Bytes) × (pack_column c ≡ ok (c.name ++ 0 ∷ b))
      × (length b ≡ 18)
      × (unpack_column c.name b ≡ ok c)
unfolding pack_column
pack_column_lem c h =
    let (column, p1, n1, back1) = short_pack_lem c.column_number h.number_ok in
    let (len, p2, n2, back2) = short_pack_lem c.typlen h.typlen_ok in
    let (mod', p3, n3, back3) = long_pack_lem c.typmod h.typmod_ok in
    let (form, p4, n4, back4) = short_pack_lem c.format h.format_ok in
    let relation = be4 c.relation_id in
    let type' = be4 c.type_id in
    let l1 = length-be4 c.relation_id in
    let l2 = length-be4 c.type_id in
    (
      relation ++ (column ++ (type' ++ (len ++ (mod' ++ form)))),
      rw (
        ulong_pack-ok c.relation_id h.relation_ok,
        p1,
        ulong_pack-ok c.type_id h.type_ok,
        p2,
        p3,
        p4,
      ),
      length-fields relation column type' len mod' form l1 n1 l2 n2 n3 n4,
      unpack_fields relation column type' len mod' form l1 n1 l2 n2 n3 n4 c
          (ulong_unpack-be4 c.relation_id) back1 (ulong_unpack-be4 c.type_id) back2 back3 back4,
    )

name_and_rest-append :
    (name b bs : Bytes) → Avoids 0 name → name_and_rest ((name ++ 0 ∷ b) ++ bs) ≡ ok (name, b ++ bs)
unfolding name_and_rest
name_and_rest-append name b bs h =
    let e : break_at 0 ((name ++ 0 ∷ b) ++ bs) ≡ some (name, b ++ bs) =
      rw (append_assoc name (0 ∷ b) bs) (break_at-append 0 name (b ++ bs) h) in
    rw (e, name_and_rest)

-- All columns, one after the other.
pub columns_lem :
    (cs : List Column)
    → All IsColumn cs
    → (b : Bytes) × (join_all pack_column cs ≡ ok b) × (read_columns (length cs) b ≡ ok cs)
unfolding join_all read_columns
columns_lem [] h = ([], refl, refl)
columns_lem (c ∷ cs) h =
    let (b, packed, n, back) = pack_column_lem c h.0 in
    let (bs, packed', back') = columns_lem cs h.1 in
    (
      (c.name ++ 0 ∷ b) ++ bs,
      rw (packed, packed'),
      rw (
        name_and_rest-append c.name b bs h.0.name_ok,
        slice-append 0 18 [] b bs refl (omega (arith, n)),
        back,
        drop-skip 18 0 b bs (omega (arith, n)),
        back',
      ),
    )
