-- ===== src/Examples/Messages.antt =====
-- Messages of protocol/element3.py, and the theorems about them at concrete messages.
use pg_cluster.Base.{List, [], arith, none, ok, refl, some, value_error, ◌∷◌, ◌≡◌}
use pg_cluster.Element.Attributes.{pack_attribute, pack_tuple_data}
use pg_cluster.Element.Class.{Class, type_of}
use pg_cluster.Element.Fields.{join_all}
use pg_cluster.Element.Framing.{cat_messages-bytes}
use pg_cluster.Element.Frontend.{serialize_bind, serialize_execute}
use pg_cluster.Element.Message.{Datum, Message, bind, class_of, copy_data, execute, flush, tuple}
use pg_cluster.Element.RoundTrip.Every.{RoundTrips, parse-serialize}
use pg_cluster.Element.Typed.{IsReturned, parse-IsOf}
use pg_cluster.Element.Wire.{
  cat_messages, element, frame, frame_as, line, parse, row, serialize, to_bytes,
}
use pg_cluster.Struct.{
  be2, be4, raises, sized_field, sized_round, split_sized_data, split_sized_loop, ulong_pack,
  ulong_unpack, ushort_pack,
}
use pg_cluster.Struct.Sized.{Ends, split_sized_data-Ends}
use pg_cluster.Version.{pack_version, version_bytes}

abbrev sample_bind : Message
sample_bind =
    bind (b'c' ∷ []) (b's' ∷ []) ((0 ∷ 1 ∷ []) ∷ (0 ∷ 0 ∷ []) ∷ []) (none ∷ some (7 ∷ 0 ∷ []) ∷ [])
      ((0 ∷ 1 ∷ []) ∷ [])

abbrev sample_row : List Datum
sample_row = some (1 ∷ 2 ∷ []) ∷ none ∷ some [] ∷ []

parse-serialize_example : RoundTrips sample_bind
parse-serialize_example = parse-serialize sample_bind (omega arith)

cat_messages-bytes_example :
    cat_messages (row sample_row ∷ line (9 ∷ []) ∷ element flush ∷ [])
    ≡ join_all to_bytes (tuple sample_row ∷ copy_data (9 ∷ []) ∷ flush ∷ [])
unfolding be4
cat_messages-bytes_example =
    cat_messages-bytes (row sample_row ∷ line (9 ∷ []) ∷ element flush ∷ []) (omega arith)

split_sized_data-Ends_example : Ends (split_sized_data (0 ∷ 0 ∷ 0 ∷ 9 ∷ 1 ∷ []))
split_sized_data-Ends_example = split_sized_data-Ends (0 ∷ 0 ∷ 0 ∷ 9 ∷ 1 ∷ [])

-- A field that is cut short raises.
split_sized_data_cut : split_sized_data (0 ∷ 0 ∷ 0 ∷ 9 ∷ 1 ∷ []) ≡ raises value_error
unfolding split_sized_data split_sized_loop sized_round sized_field ulong_unpack
split_sized_data_cut = refl

execute_bytes : to_bytes (execute [] 5) ≡ ok (b'E' ∷ 0 ∷ 0 ∷ 0 ∷ 9 ∷ 0 ∷ 0 ∷ 0 ∷ 0 ∷ 5 ∷ [])
unfolding to_bytes serialize serialize_execute ulong_pack be4 frame_as frame type_of class_of
execute_bytes = refl

sample_bind_body :
    serialize sample_bind
    ≡ ok (
        b'c' ∷ 0 ∷ b's' ∷ 0 ∷ 0 ∷ 2 ∷ 0 ∷ 1 ∷ 0 ∷ 0 ∷ 0 ∷ 2 ∷ 255 ∷ 255 ∷ 255 ∷ 255 ∷ 0 ∷ 0 ∷ 0 ∷ 2
        ∷ 7 ∷ 0 ∷ 0 ∷ 1 ∷ 0 ∷ 1 ∷ [])
unfolding serialize serialize_bind ushort_pack be2 pack_tuple_data pack_attribute ulong_pack be4
sample_bind_body = refl

-- The code of the request for SSL
ssl_code_bytes : version_bytes (record { major = 1234; minor = 5679 }) ≡ ok (4 ∷ 210 ∷ 22 ∷ 47 ∷ [])
unfolding version_bytes pack_version ushort_pack be2
ssl_code_bytes = refl

parse-IsOf_example : IsReturned Class.ready (parse Class.ready (b'T' ∷ []))
parse-IsOf_example = parse-IsOf Class.ready (b'T' ∷ [])
