-- ===== src/Element/Frontend.antt =====
-- The classes of protocol/element3.py that the client sends: `serialize` and `parse` of each.
use Prim.Native.Nat.{max}
use pg_cluster.Base.{
  Bytes, List, Option, Outcome, [], bytes_eq, drop, guard, if◌then◌else◌, index_error, length, none,
  ok, raise, slice, some, split, split_max, value_error, ℕ, ◌*◌, ◌++◌, ◌+◌, ◌==◌, ◌>>=◌, ◌>>◌, ◌∷◌,
}
use pg_cluster.Element.Attributes.{pack_tuple_data, read_attributes}
use pg_cluster.Element.Backend.{parse_kill_information, parse_string, serialize_kill_information}
use pg_cluster.Element.Class.{cancel_version, ssl_version, startup_version}
use pg_cluster.Element.Fields.{
  concat, join_all, put_item, read_formats, read_ulongs, unpack_three, unpack_two,
}
use pg_cluster.Element.Message.{
  Datum, Items, Message, bind, cancel_request, execute, function, negotiate_ssl, parse_statement,
  startup,
}
use pg_cluster.Struct.{ulong_pack, ulong_unpack, ushort_pack, ushort_unpack}

-- CancelRequest
unfoldable pub serialize_cancel_request : ℕ → ℕ → Outcome Bytes
serialize_cancel_request pid key = do
  body ← serialize_kill_information pid key
  ok (cancel_version ++ body)

unfoldable pub parse_cancel_request : Bytes → Outcome Message
parse_cancel_request v =
    if bytes_eq (slice 0 4 v) cancel_version
    then parse_kill_information cancel_request (drop 4 v)
    else raise value_error

-- NegotiateSSL
unfoldable pub parse_negotiate_ssl : Bytes → Outcome Message
parse_negotiate_ssl v = if bytes_eq v ssl_version then ok negotiate_ssl else raise value_error

-- Startup: `k + b'\x00' + v + b'\x00' for k, v in self.items() if v is not None`
unfoldable pub startup_fields : Items → Bytes
startup_fields [] = []
startup_fields ((k, none) ∷ d) = startup_fields d
startup_fields ((k, some v) ∷ d) = k ++ 0 ∷ (v ++ 0 ∷ startup_fields d)

unfoldable pub serialize_startup : Items → Bytes
serialize_startup d = startup_version ++ (startup_fields d ++ 0 ∷ [])

-- `xs[:-2]`
unfoldable pub drop_last_two : List Bytes → List Bytes
drop_last_two (a ∷ b ∷ c ∷ xs) = a ∷ drop_last_two (b ∷ c ∷ xs)
drop_last_two _ = []

-- The loop over the pieces: `key` is a key that still waits for its value.
unfoldable pub startup_pairs : Option Bytes → List Bytes → Items → Items
startup_pairs key [] kw = kw
startup_pairs none (value ∷ xs) kw = startup_pairs (some value) xs kw
startup_pairs (some k) (value ∷ xs) kw = startup_pairs none xs (put_item k (some value) kw)

-- On another version the error message itself cannot be formatted (`{1}` with one argument).
unfoldable pub parse_startup : Bytes → Outcome Message
parse_startup v =
    if bytes_eq (slice 0 4 v) startup_version
    then ok (startup (startup_pairs none (drop_last_two (split 0 (drop 4 v))) []))
    else raise index_error

-- Parse
unfoldable pub serialize_parse : Bytes → Bytes → List ℕ → Outcome Bytes
serialize_parse name statement argtypes = do
  ac ← ushort_pack (length argtypes)
  rest ← join_all ulong_pack argtypes
  ok (name ++ 0 ∷ (statement ++ 0 ∷ (ac ++ rest)))

unfoldable pub parse_parse : Bytes → Outcome Message
parse_parse v = do
  (name, statement, args) ← unpack_three (split_max 0 2 v)
  ac ← ushort_unpack (slice 0 2 args)
  guard (length (drop 2 args) == ac * 4) value_error
  types ← read_ulongs ac (drop 2 args)
  ok (parse_statement name statement types)

-- Bind: both counts are that of the arguments.
unfoldable pub serialize_bind : Bytes → Bytes → List Bytes → List Datum → List Bytes → Outcome Bytes
serialize_bind name statement aformats arguments rformats = do
  ac ← ushort_pack (length arguments)
  ad ← pack_tuple_data arguments
  rc ← ushort_pack (length rformats)
  ok (
      name
      ++ 0
        ∷ (statement ++ 0 ∷ (ac ++ (concat aformats ++ (ac ++ (ad ++ (rc ++ concat rformats)))))))

unfoldable pub parse_bind : Bytes → Outcome Message
parse_bind message_data = do
  (name, statement, v) ← unpack_three (split_max 0 2 message_data)
  ac ← ushort_unpack (slice 0 2 v)
  let offset = 2 + 2 * ac
  aformats ← read_formats ac (slice 2 offset v)
  natts ← ushort_unpack (slice offset (offset + 2) v)
  (args, offset') ← read_attributes natts v (offset + 2)
  rfc ← ushort_unpack (slice offset' (offset' + 2) v)
  rformats ← read_formats rfc (slice (offset' + 2) (offset' + 2 + 2 * rfc) v)
  ok (bind name statement aformats args rformats)

-- Execute
unfoldable pub serialize_execute : Bytes → ℕ → Outcome Bytes
serialize_execute name max = do m ← ulong_pack max; ok (name ++ 0 ∷ m)

unfoldable pub parse_execute : Bytes → Outcome Message
parse_execute v = do
  (name, max) ← unpack_two (split_max 0 1 v)
  m ← ulong_unpack max
  ok (execute name m)

-- Describe and Close, with the subtype of the class
unfoldable pub serialize_target : Bytes → Bytes → Bytes
serialize_target subtype text = subtype ++ (text ++ 0 ∷ [])

unfoldable pub parse_target : Bytes → (Bytes → Message) → Bytes → Outcome Message
parse_target subtype typ v =
    if bytes_eq (slice 0 1 v) subtype then parse_string typ (drop 1 v) else raise value_error

-- Function
unfoldable pub serialize_function : ℕ → List Bytes → List Datum → Bytes → Outcome Bytes
serialize_function oid aformats arguments rformat = do
  ac ← ushort_pack (length arguments)
  o ← ulong_pack oid
  ad ← pack_tuple_data arguments
  ok (o ++ (ac ++ (concat aformats ++ (ac ++ (ad ++ rformat)))))

unfoldable pub parse_function : Bytes → Outcome Message
parse_function v = do
  oid ← ulong_unpack (slice 0 4 v)
  ac ← ushort_unpack (slice 4 6 v)
  let offset = 6 + 2 * ac
  aformats ← read_formats ac (slice 6 offset v)
  natts ← ushort_unpack (slice offset (offset + 2) v)
  (args, offset') ← read_attributes natts v (offset + 2)
  ok (function oid aformats args (drop offset' v))
