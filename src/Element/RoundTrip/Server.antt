-- ===== src/Element/RoundTrip/Server.antt =====
-- The server's classes of protocol/element3.py: what is serialised is parsed, class by class.
use pg_cluster.Base.{
  ==-refl, All, Avoids, Bytes, List, [], append-nil, arith, bytes_eq, bytes_eq_refl, false, length,
  length-append, lt→ltb, none, ok, refl, some, sym, ℕ, ◌*◌, ◌++◌, ◌<◌, ◌∷◌, ◌≡◌,
}
use pg_cluster.Element.Attributes.{null_size}
use pg_cluster.Element.Backend.{
  parse_attribute_types, parse_authentication, parse_complete_tag, parse_copy_begin,
  parse_function_result, parse_kill_information, parse_notify, parse_show_option, parse_string,
  parse_tuple, parse_tuple_descriptor, serialize_attribute_types, serialize_authentication,
  serialize_copy_begin, serialize_function_result, serialize_kill_information, serialize_notify,
  serialize_show_option, serialize_string, serialize_tuple, serialize_tuple_descriptor,
  show_option_of, unpack_copy_header,
}
use pg_cluster.Element.Fields.{unpack_three}
use pg_cluster.Element.Message.{
  Column, Datum, Message, attribute_types, authentication, complete, function_result, notify,
  show_option, tuple_descriptor,
}
use pg_cluster.Element.RoundTrip.Arrays.{
  IsUlong, IsUshort, drop-be2, drop-be4, join_all-ulong, join_all-ushort, length-ulong_bytes,
  length-ushort_bytes, read_ulongs-bytes, read_ushorts-bytes, slice-be2, slice-be4, ulong_bytes,
  ulong_unpack-exact, ushort_bytes, ushort_unpack-exact,
}
use pg_cluster.Element.RoundTrip.Columns.{IsColumn, columns_lem}
use pg_cluster.Element.RoundTrip.Rows.{
  IsDatum, length-be2, length-be4, pack_tuple_data-ok, read_attributes_lem, row_bytes,
}
use pg_cluster.Element.RoundTrip.Texts.{
  NoTrailingNul, chop_nul-append, rstrip_nul-append, split_two,
}
use pg_cluster.Struct.{be2, be4}
use pg_cluster.Struct.RoundTrip.{ulong_pack-ok, ulong_unpack-be4, ushort_pack-ok}

pub notify_lem :
    (pid : ℕ) (channel payload : Bytes)
    → IsUlong pid
    → Avoids 0 channel
    → Avoids 0 payload
    → (v : Bytes) × (serialize_notify pid channel payload ≡ ok v)
      × (parse_notify v ≡ ok (notify pid channel payload))
unfolding serialize_notify parse_notify unpack_three
notify_lem pid channel payload hp hc hl = (
  be4 pid ++ (channel ++ 0 ∷ (payload ++ 0 ∷ [])),
  rw (ulong_pack-ok pid hp),
  rw (
    ulong_unpack-be4 pid (channel ++ 0 ∷ (payload ++ 0 ∷ [])),
    drop-be4 pid (channel ++ 0 ∷ (payload ++ 0 ∷ [])),
    split_two channel payload hc hl,
  ),
)

pub show_option_lem :
    (name value : Bytes)
    → Avoids 0 name
    → Avoids 0 value
    → parse_show_option (serialize_show_option name value) ≡ ok (show_option name value)
unfolding parse_show_option serialize_show_option show_option_of
show_option_lem name value hn hv = rw (split_two name value hn hv)

pub string_lem :
    (typ : Bytes → Message) (text : Bytes)
    → parse_string typ (serialize_string text) ≡ ok (typ text)
unfolding parse_string serialize_string
string_lem typ text = rw (chop_nul-append text, parse_string)

pub complete_lem :
    (text : Bytes)
    → NoTrailingNul text
    → parse_complete_tag (serialize_string text) ≡ ok (complete text)
unfolding parse_complete_tag serialize_string
complete_lem text h = rw (rstrip_nul-append text h)

size-ne-null : (n : ℕ) (x : Bytes) → n < 4294967295 → bytes_eq (be4 n ++ x) null_size ≡ false
unfolding bytes_eq be4
size-ne-null n x h = ground arith

pub function_result_lem :
    (r : Datum)
    → IsDatum r
    → (v : Bytes) × (serialize_function_result r ≡ ok v)
      × (parse_function_result v ≡ ok (function_result r))
unfolding serialize_function_result parse_function_result
function_result_lem none h = (null_size, refl, rw (bytes_eq_refl null_size))
function_result_lem (some x) h = (
  be4 (length x) ++ x,
  rw (ulong_pack-ok (length x) (omega arith)),
  rw (
    size-ne-null (length x) x h,
    slice-be4 (length x) x,
    ulong_unpack-exact (length x),
    drop-be4 (length x) x,
    ==-refl (length x),
  ),
)

pub attribute_types_lem :
    (types : List ℕ)
    → IsUshort (length types)
    → All IsUlong types
    → (v : Bytes) × (serialize_attribute_types types ≡ ok v)
      × (parse_attribute_types v ≡ ok (attribute_types types))
unfolding serialize_attribute_types parse_attribute_types
attribute_types_lem types n h = (
  be2 (length types) ++ ulong_bytes types,
  rw (ushort_pack-ok (length types) n, join_all-ulong types h),
  rw (
    slice-be2 (length types) (ulong_bytes types),
    ushort_unpack-exact (length types),
    drop-be2 (length types) (ulong_bytes types),
    length-ulong_bytes types,
    ==-refl (length types * 4),
    read_ulongs-bytes types,
  ),
)

pub tuple_descriptor_lem :
    (columns : List Column)
    → IsUshort (length columns)
    → All IsColumn columns
    → (v : Bytes) × (serialize_tuple_descriptor columns ≡ ok v)
      × (parse_tuple_descriptor v ≡ ok (tuple_descriptor columns))
unfolding serialize_tuple_descriptor parse_tuple_descriptor
tuple_descriptor_lem columns n h =
    let (b, packed, back) = columns_lem columns h in
    (
      be2 (length columns) ++ b,
      rw (ushort_pack-ok (length columns) n, packed),
      rw (
        slice-be2 (length columns) b,
        ushort_unpack-exact (length columns),
        drop-be2 (length columns) b,
        back,
      ),
    )

pub tuple_lem :
    (atts : List Datum)
    → IsUshort (length atts)
    → All IsDatum atts
    → (v : Bytes) × (serialize_tuple atts ≡ ok v) × (parse_tuple v ≡ ok atts)
unfolding serialize_tuple parse_tuple
tuple_lem atts n h =
    let count = be2 (length atts) in
    let read =
      rw append-nil at (read_attributes_lem count [] 2 atts (sym (length-be2 (length atts))) h) in
    (
      count ++ row_bytes atts,
      rw (ushort_pack-ok (length atts) n, pack_tuple_data-ok atts h),
      rw (slice-be2 (length atts) (row_bytes atts), ushort_unpack-exact (length atts), read),
    )

pub kill_information_lem :
    (typ : ℕ → ℕ → Message) (pid key : ℕ)
    → IsUlong pid
    → IsUlong key
    → (v : Bytes) × (serialize_kill_information pid key ≡ ok v)
      × (parse_kill_information typ v ≡ ok (typ pid key))
unfolding serialize_kill_information parse_kill_information
kill_information_lem typ pid key hp hk =
    let eight : length (be4 pid ++ be4 key) ≡ 8 =
      omega (arith, length-append (be4 pid) (be4 key), length-be4 pid, length-be4 key) in
    (
      be4 pid ++ be4 key,
      rw (ulong_pack-ok pid hp, ulong_pack-ok key hk),
      rw (eight, ulong_unpack-be4 pid (be4 key), drop-be4 pid (be4 key), ulong_unpack-exact key),
    )

pub authentication_lem :
    (request : ℕ) (salt : Bytes)
    → IsUlong request
    → (v : Bytes) × (serialize_authentication request salt ≡ ok v)
      × (parse_authentication v ≡ ok (authentication request salt))
unfolding serialize_authentication parse_authentication
authentication_lem request salt h = (
  be4 request ++ salt,
  rw (ulong_pack-ok request h),
  rw (slice-be4 request salt, ulong_unpack-exact request, drop-be4 request salt),
)

copy_header :
    (format n : ℕ) (v : Bytes) → unpack_copy_header (format ∷ (be2 n ++ v)) ≡ ok (format, n)
unfolding unpack_copy_header be2
copy_header format n v = rw (ushort_unpack-exact n)

pub copy_begin_lem :
    (typ : ℕ → List ℕ → Message) (format : ℕ) (formats : List ℕ)
    → format < 256
    → IsUshort (length formats)
    → All IsUshort formats
    → (v : Bytes) × (serialize_copy_begin format formats ≡ ok v)
      × (parse_copy_begin typ v ≡ ok (typ format formats))
unfolding serialize_copy_begin parse_copy_begin
copy_begin_lem typ format formats hf n h = (
  format ∷ (be2 (length formats) ++ ushort_bytes formats),
  rw (lt→ltb format 256 hf, ushort_pack-ok (length formats) n, join_all-ushort formats h),
  rw (
    copy_header format (length formats) (ushort_bytes formats),
    drop-be2 (length formats) (ushort_bytes formats),
    length-ushort_bytes formats,
    ==-refl (length formats * 2),
    read_ushorts-bytes formats,
  ),
)
