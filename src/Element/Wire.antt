-- ===== src/Element/Wire.antt =====
-- The methods that every class of protocol/element3.py has, by its class: `serialize`, `parse`
-- and `bytes`; and `cat_messages`.
use Prim.Native.Nat.{max}
use pg_cluster.Base.{
  Bytes, List, Outcome, [], length, ok, raise, struct_error, ◌++◌, ◌+◌, ◌>>=◌, ◌∷◌,
}
use pg_cluster.Base.Int.{pos}
use pg_cluster.Element.Attributes.{pack_tuple_data}
use pg_cluster.Element.Backend.{
  parse_attribute_types, parse_authentication, parse_complete_tag, parse_copy_begin, parse_empty,
  parse_function_result, parse_kill_information, parse_notice, parse_notify, parse_ready,
  parse_show_option, parse_string, parse_tuple, parse_tuple_descriptor, serialize_attribute_types,
  serialize_authentication, serialize_copy_begin, serialize_function_result,
  serialize_kill_information, serialize_notice, serialize_notify, serialize_show_option,
  serialize_string, serialize_tuple, serialize_tuple_descriptor,
}
use pg_cluster.Element.Class.{Class, portal_subtype, ssl_version, statement_subtype, type_of}
use pg_cluster.Element.Fields.{join_all}
use pg_cluster.Element.Frontend.{
  parse_bind, parse_cancel_request, parse_execute, parse_function, parse_negotiate_ssl, parse_parse,
  parse_startup, parse_target, serialize_bind, serialize_cancel_request, serialize_execute,
  serialize_function, serialize_parse, serialize_startup, serialize_target,
}
use pg_cluster.Element.Message.{
  Datum, Message, Parsed, attribute_types, authentication, bind, bind_complete, cancel_request,
  class_of, close_complete, close_portal, close_statement, complete, copy_data, copy_done,
  copy_fail, copy_from_begin, copy_to_begin, describe_portal, describe_statement, disconnect,
  element_of, error, execute, flush, function, function_result, kill_information, negotiate_ssl,
  no_data, notice, notify, null, parse_complete, parse_statement, password, plain_tuple, query,
  ready, show_option, startup, suspension, synchronize, tuple, tuple_descriptor,
}
use pg_cluster.Struct.{long_pack, ulong_pack, ushort_pack}

unfoldable pub serialize : Message → Outcome Bytes
serialize (notify pid channel payload) = serialize_notify pid channel payload
serialize (show_option name value) = ok (serialize_show_option name value)
serialize (complete text) = ok (serialize_string text)
serialize null = ok []
serialize no_data = ok []
serialize parse_complete = ok []
serialize bind_complete = ok []
serialize close_complete = ok []
serialize suspension = ok []
serialize (ready xact_state) = ok xact_state
serialize (notice d) = ok (serialize_notice d)
serialize (error d) = ok (serialize_notice d)
serialize (function_result r) = serialize_function_result r
serialize (attribute_types types) = serialize_attribute_types types
serialize (tuple_descriptor columns) = serialize_tuple_descriptor columns
serialize (tuple atts) = serialize_tuple atts
serialize (kill_information pid key) = serialize_kill_information pid key
serialize (cancel_request pid key) = serialize_cancel_request pid key
serialize negotiate_ssl = ok ssl_version
serialize (startup d) = ok (serialize_startup d)
serialize (authentication request salt) = serialize_authentication request salt
serialize (password text) = ok (serialize_string text)
serialize disconnect = ok []
serialize flush = ok []
serialize synchronize = ok []
serialize (query text) = ok (serialize_string text)
serialize (parse_statement name statement types) = serialize_parse name statement types
serialize (bind name statement aformats args rformats) =
    serialize_bind name statement aformats args rformats
serialize (execute name max) = serialize_execute name max
serialize (describe_statement text) = ok (serialize_target statement_subtype text)
serialize (describe_portal text) = ok (serialize_target portal_subtype text)
serialize (close_statement text) = ok (serialize_target statement_subtype text)
serialize (close_portal text) = ok (serialize_target portal_subtype text)
serialize (function oid aformats args rformat) = serialize_function oid aformats args rformat
serialize (copy_to_begin format formats) = serialize_copy_begin format formats
serialize (copy_from_begin format formats) = serialize_copy_begin format formats
serialize (copy_data x) = ok x
serialize (copy_fail text) = ok (serialize_string text)
serialize copy_done = ok []

unfoldable pub as_element : Outcome Message → Outcome Parsed
as_element (ok m) = ok (element_of m)
as_element (raise e) = raise e

unfoldable pub as_tuple : Outcome (List Datum) → Outcome Parsed
as_tuple (ok atts) = ok (plain_tuple atts)
as_tuple (raise e) = raise e

-- `typ.parse(data)`
unfoldable pub parse : Class → Bytes → Outcome Parsed
parse Class.notify v = as_element (parse_notify v)
parse Class.show_option v = as_element (parse_show_option v)
parse Class.complete v = as_element (parse_complete_tag v)
parse Class.null v = as_element (parse_empty null v)
parse Class.no_data v = as_element (parse_empty no_data v)
parse Class.parse_complete v = as_element (parse_empty parse_complete v)
parse Class.bind_complete v = as_element (parse_empty bind_complete v)
parse Class.close_complete v = as_element (parse_empty close_complete v)
parse Class.suspension v = as_element (parse_empty suspension v)
parse Class.ready v = as_element (parse_ready v)
parse Class.notice v = as_element (parse_notice notice v)
parse Class.error v = as_element (parse_notice error v)
parse Class.function_result v = as_element (parse_function_result v)
parse Class.attribute_types v = as_element (parse_attribute_types v)
parse Class.tuple_descriptor v = as_element (parse_tuple_descriptor v)
parse Class.tuple v = as_tuple (parse_tuple v)
parse Class.kill_information v = as_element (parse_kill_information kill_information v)
parse Class.cancel_request v = as_element (parse_cancel_request v)
parse Class.negotiate_ssl v = as_element (parse_negotiate_ssl v)
parse Class.startup v = as_element (parse_startup v)
parse Class.authentication v = as_element (parse_authentication v)
parse Class.password v = as_element (parse_string password v)
parse Class.disconnect v = as_element (parse_empty disconnect v)
parse Class.flush v = as_element (parse_empty flush v)
parse Class.synchronize v = as_element (parse_empty synchronize v)
parse Class.query v = as_element (parse_string query v)
parse Class.parse v = as_element (parse_parse v)
parse Class.bind v = as_element (parse_bind v)
parse Class.execute v = as_element (parse_execute v)
parse Class.describe_statement v = as_element (parse_target statement_subtype describe_statement v)
parse Class.describe_portal v = as_element (parse_target portal_subtype describe_portal v)
parse Class.close_statement v = as_element (parse_target statement_subtype close_statement v)
parse Class.close_portal v = as_element (parse_target portal_subtype close_portal v)
parse Class.function v = as_element (parse_function v)
parse Class.copy_to_begin v = as_element (parse_copy_begin copy_to_begin v)
parse Class.copy_from_begin v = as_element (parse_copy_begin copy_from_begin v)
parse Class.copy_data v = as_element (ok (copy_data v))
parse Class.copy_fail v = as_element (parse_string copy_fail v)
parse Class.copy_done v = as_element (parse_empty copy_done v)

-- `Struct("!cL").pack(self.type, len(data) + 4) + data`: the type must be one byte.
unfoldable pub frame : Bytes → Bytes → Outcome Bytes
frame (t ∷ []) v = do size ← ulong_pack (length v + 4); ok (t ∷ (size ++ v))
frame _ v = raise struct_error

-- `ulong_pack(len(data) + 4) + data`, of the classes that have no type
unfoldable pub frame_untyped : Bytes → Outcome Bytes
frame_untyped v = do size ← ulong_pack (length v + 4); ok (size ++ v)

-- `m.bytes()`: the classes CancelRequest, NegotiateSSL and Startup override it.
unfoldable pub frame_as : Class → Bytes → Outcome Bytes
frame_as Class.cancel_request v = frame_untyped v
frame_as Class.negotiate_ssl v = frame_untyped v
frame_as Class.startup v = frame_untyped v
frame_as c v = frame (type_of c) v

unfoldable pub to_bytes : Message → Outcome Bytes
to_bytes m = do v ← serialize m; frame_as (class_of m) v

-- What `cat_messages` is given: a bare byte string is a line of COPY data, a bare tuple is a row.
pub data Outgoing : Type 0 where
  line : Bytes → Outgoing
  row : List Datum → Outgoing
  element : Message → Outgoing

-- `pack_head((blen(r) + 6, tlen(t))) + r` with `lH_pack`
unfoldable pub pack_row : List Datum → Outcome Bytes
pack_row t = do
  r ← pack_tuple_data t
  size ← long_pack (pos (length r + 6))
  count ← ushort_pack (length t)
  ok (b'D' ∷ (size ++ (count ++ r)))

unfoldable pub outgoing_bytes : Outgoing → Outcome Bytes
outgoing_bytes (line x) = do size ← long_pack (pos (length x + 4)); ok (b'd' ∷ (size ++ x))
outgoing_bytes (row t) = pack_row t
outgoing_bytes (element m) = to_bytes m

unfoldable pub cat_messages : List Outgoing → Outcome Bytes
cat_messages messages = join_all outgoing_bytes messages
