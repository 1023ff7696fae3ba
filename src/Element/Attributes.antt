-- ===== src/Element/Attributes.antt =====
-- Rows on the wire: `pack_tuple_data`, and the loop over the attributes of a row, which
-- `Tuple.parse`, `Bind.parse` and `Function.parse` of protocol/element3.py write out each.
use pg_cluster.Base.{
  Bytes, List, Outcome, [], bytes_eq, if◌then◌else◌, length, none, ok, slice, some, suc, zero, ℕ,
  ◌++◌, ◌+◌, ◌>>=◌, ◌∷◌,
}
use pg_cluster.Element.Message.{Datum}
use pg_cluster.Struct.{ulong_pack, ulong_unpack}

-- `b'\xff\xff\xff\xff'`, the size of a NULL
abbrev pub null_size : Bytes
null_size = 255 ∷ 255 ∷ 255 ∷ 255 ∷ []

unfoldable pub pack_attribute : Datum → Outcome Bytes
pack_attribute none = ok null_size
pack_attribute (some x) = do size ← ulong_pack (length x); ok (size ++ x)

unfoldable pub pack_tuple_data : List Datum → Outcome Bytes
pack_tuple_data [] = ok []
pack_tuple_data (x ∷ xs) = do
  front ← pack_attribute x
  rest ← pack_tuple_data xs
  ok (front ++ rest)

-- One round: the attribute at the offset, and the offset behind it. A slice past the end of the
-- data is short, and raises nothing.
unfoldable pub read_attribute : Bytes → ℕ → Outcome (Datum × ℕ)
read_attribute v alo =
    let size = slice alo (alo + 4) v in
    if bytes_eq size null_size
    then ok (none, alo + 4)
    else do al ← ulong_unpack size; ok (some (slice (alo + 4) (alo + 4 + al) v), alo + 4 + al)

-- `while natts > 0`
unfoldable pub read_attributes : ℕ → Bytes → ℕ → Outcome (List Datum × ℕ)
read_attributes zero v offset = ok ([], offset)
read_attributes (suc natts) v offset = do
  (att, offset') ← read_attribute v offset
  (atts, end) ← read_attributes natts v offset'
  ok (att ∷ atts, end)
