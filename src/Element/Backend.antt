-- ===== src/Element/Backend.antt =====
-- The classes of protocol/element3.py that the server sends: `serialize` and `parse` of each.
use pg_cluster.Base.{
  Bool, Bytes, List, Outcome, [], break_at, bytes_eq, drop, guard, if◌then◌else◌, length, ltb, none,
  ok, raise, slice, some, split, split_max, struct_error, suc, type_error, value_error, zero, ℕ,
  ◌*◌, ◌++◌, ◌==◌, ◌>>=◌, ◌>>◌, ◌||◌, ◌∷◌,
}
use pg_cluster.Element.Attributes.{null_size, pack_tuple_data, read_attributes}
use pg_cluster.Element.Fields.{
  chop_nul, dict_from, join_all, read_ulongs, read_ushorts, rstrip_nul, unpack_three,
}
use pg_cluster.Element.Message.{
  Column, Datum, Items, Message, attribute_types, authentication, complete, function_result, notify,
  ready, show_option, tuple_descriptor,
}
use pg_cluster.Struct.{
  long_pack, long_unpack, short_pack, short_unpack, ulong_pack, ulong_unpack, ushort_pack,
  ushort_unpack,
}

-- Notify
unfoldable pub serialize_notify : ℕ → Bytes → Bytes → Outcome Bytes
serialize_notify pid channel payload = do
  p ← ulong_pack pid
  ok (p ++ (channel ++ 0 ∷ (payload ++ 0 ∷ [])))

unfoldable pub parse_notify : Bytes → Outcome Message
parse_notify v = do
  pid ← ulong_unpack v
  (channel, payload, _) ← unpack_three (split_max 0 2 (drop 4 v))
  ok (notify pid channel payload)

-- ShowOption
unfoldable pub serialize_show_option : Bytes → Bytes → Bytes
serialize_show_option name value = name ++ 0 ∷ (value ++ 0 ∷ [])

-- `typ(*parts[0:2])`: fewer than two parts are a call with a missing argument.
unfoldable pub show_option_of : List Bytes → Outcome Message
show_option_of (name ∷ value ∷ rest) = ok (show_option name value)
show_option_of _ = raise type_error

unfoldable pub parse_show_option : Bytes → Outcome Message
parse_show_option v = show_option_of (split_max 0 2 v)

-- StringMessage: Password, Query, CopyFail
unfoldable pub serialize_string : Bytes → Bytes
serialize_string text = text ++ 0 ∷ []

unfoldable pub parse_string : (Bytes → Message) → Bytes → Outcome Message
parse_string typ v = elim (chop_nul v) [ none ↦ raise value_error | some text ↦ ok (typ text) ]

-- Complete
unfoldable pub parse_complete_tag : Bytes → Outcome Message
parse_complete_tag v = ok (complete (rstrip_nul v))

-- EmptyMessage
unfoldable pub parse_empty : Message → Bytes → Outcome Message
parse_empty instance' [] = ok instance'
parse_empty instance' (b ∷ v) = raise value_error

-- Ready: `data not in self.possible_states`
unfoldable pub is_possible_state : Bytes → Bool
is_possible_state v = bytes_eq v (b'I' ∷ []) || (bytes_eq v (b'E' ∷ []) || bytes_eq v (b'T' ∷ []))

unfoldable pub parse_ready : Bytes → Outcome Message
parse_ready v = if is_possible_state v then ok (ready v) else raise value_error

-- Notice and Error: `k + v for k, v in self.items() if k and v is not None`
unfoldable pub notice_fields : Items → List Bytes
notice_fields [] = []
notice_fields (([], v) ∷ d) = notice_fields d
notice_fields ((b ∷ k, none) ∷ d) = notice_fields d
notice_fields ((b ∷ k, some v) ∷ d) = ((b ∷ k) ++ v) ∷ notice_fields d

-- `b'\x00'.join(xs)`
unfoldable pub join_nul : List Bytes → Bytes
join_nul [] = []
join_nul (x ∷ []) = x
join_nul (x ∷ y ∷ xs) = x ++ 0 ∷ join_nul (y ∷ xs)

unfoldable pub serialize_notice : Items → Bytes
serialize_notice d = join_nul (notice_fields d) ++ 0 ∷ []

-- `(msgtypes[x[0]], x[1:]) for x in … if x`
unfoldable pub notice_pairs : List Bytes → Items
notice_pairs [] = []
notice_pairs ([] ∷ xs) = notice_pairs xs
notice_pairs ((b ∷ v) ∷ xs) = (b ∷ [], some v) ∷ notice_pairs xs

unfoldable pub parse_notice : (Items → Message) → Bytes → Outcome Message
parse_notice typ v = ok (typ (dict_from [] (notice_pairs (split 0 v))))

-- FunctionResult
unfoldable pub serialize_function_result : Datum → Outcome Bytes
serialize_function_result none = ok null_size
serialize_function_result (some x) = do size ← ulong_pack (length x); ok (size ++ x)

unfoldable pub parse_function_result : Bytes → Outcome Message
parse_function_result v = if bytes_eq v null_size then ok (function_result none) else do
  size ← ulong_unpack (slice 0 4 v)
  guard (size == length (drop 4 v)) value_error
  ok (function_result (some (drop 4 v)))

-- AttributeTypes
unfoldable pub serialize_attribute_types : List ℕ → Outcome Bytes
serialize_attribute_types types = do
  count ← ushort_pack (length types)
  rest ← join_all ulong_pack types
  ok (count ++ rest)

unfoldable pub parse_attribute_types : Bytes → Outcome Message
parse_attribute_types v = do
  ac ← ushort_unpack (slice 0 2 v)
  guard (length (drop 2 v) == ac * 4) value_error
  types ← read_ulongs ac (drop 2 v)
  ok (attribute_types types)

-- TupleDescriptor: `Struct("!LhLhlh")`, 18 bytes
unfoldable pub pack_column : Column → Outcome Bytes
pack_column c = do
  relation ← ulong_pack c.relation_id
  column ← short_pack c.column_number
  type' ← ulong_pack c.type_id
  len ← short_pack c.typlen
  mod' ← long_pack c.typmod
  form ← short_pack c.format
  ok (c.name ++ 0 ∷ (relation ++ (column ++ (type' ++ (len ++ (mod' ++ form))))))

unfoldable pub unpack_column : Bytes → Bytes → Outcome Column
unpack_column name v = do
  guard (length v == 18) struct_error
  relation ← ulong_unpack v
  column ← short_unpack (drop 4 v)
  type' ← ulong_unpack (drop 6 v)
  len ← short_unpack (drop 10 v)
  mod' ← long_unpack (drop 12 v)
  form ← short_unpack (drop 16 v)
  ok (record {
    name = name;
    relation_id = relation;
    column_number = column;
    type_id = type';
    typlen = len;
    typmod = mod';
    format = form;
  })

unfoldable pub serialize_tuple_descriptor : List Column → Outcome Bytes
serialize_tuple_descriptor columns = do
  count ← ushort_pack (length columns)
  rest ← join_all pack_column columns
  ok (count ++ rest)

-- `data.index(b'\x00')` raises where there is no NUL.
unfoldable pub name_and_rest : Bytes → Outcome (Bytes × Bytes)
name_and_rest v = elim (break_at 0 v) [ none ↦ raise value_error | some p ↦ ok p ]

-- `while ca < ac`
unfoldable pub read_columns : ℕ → Bytes → Outcome (List Column)
read_columns zero v = ok []
read_columns (suc n) v = do
  (name, rest) ← name_and_rest v
  column ← unpack_column name (slice 0 18 rest)
  columns ← read_columns n (drop 18 rest)
  ok (column ∷ columns)

unfoldable pub parse_tuple_descriptor : Bytes → Outcome Message
parse_tuple_descriptor v = do
  ac ← ushort_unpack (slice 0 2 v)
  columns ← read_columns ac (drop 2 v)
  ok (tuple_descriptor columns)

-- Tuple
unfoldable pub serialize_tuple : List Datum → Outcome Bytes
serialize_tuple atts = do
  count ← ushort_pack (length atts)
  rest ← pack_tuple_data atts
  ok (count ++ rest)

-- `T(atts)` is a plain tuple.
unfoldable pub parse_tuple : Bytes → Outcome (List Datum)
parse_tuple v = do
  natts ← ushort_unpack (slice 0 2 v)
  (atts, end) ← read_attributes natts v 2
  ok atts

-- KillInformation: `Struct("!LL")`, 8 bytes
unfoldable pub serialize_kill_information : ℕ → ℕ → Outcome Bytes
serialize_kill_information pid key = do p ← ulong_pack pid; k ← ulong_pack key; ok (p ++ k)

unfoldable pub parse_kill_information : (ℕ → ℕ → Message) → Bytes → Outcome Message
parse_kill_information typ v = do
  guard (length v == 8) struct_error
  pid ← ulong_unpack v
  key ← ulong_unpack (drop 4 v)
  ok (typ pid key)

-- Authentication
unfoldable pub serialize_authentication : ℕ → Bytes → Outcome Bytes
serialize_authentication request salt = do r ← ulong_pack request; ok (r ++ salt)

unfoldable pub parse_authentication : Bytes → Outcome Message
parse_authentication v = do
  request ← ulong_unpack (slice 0 4 v)
  ok (authentication request (drop 4 v))

-- CopyBegin: `Struct("!BH")`, 3 bytes
unfoldable pub serialize_copy_begin : ℕ → List ℕ → Outcome Bytes
serialize_copy_begin format formats = do
  guard (ltb format 256) struct_error
  count ← ushort_pack (length formats)
  rest ← join_all ushort_pack formats
  ok (format ∷ (count ++ rest))

-- `struct.unpack(data[:3])`: fewer than three bytes are refused.
unfoldable pub unpack_copy_header : Bytes → Outcome (ℕ × ℕ)
unpack_copy_header (format ∷ a ∷ b ∷ v) = do natts ← ushort_unpack (a ∷ b ∷ []); ok (format, natts)
unpack_copy_header _ = raise struct_error

unfoldable pub parse_copy_begin : (ℕ → List ℕ → Message) → Bytes → Outcome Message
parse_copy_begin typ v = do
  (format, natts) ← unpack_copy_header v
  guard (length (drop 3 v) == natts * 2) value_error
  formats ← read_ushorts natts (drop 3 v)
  ok (typ format formats)
