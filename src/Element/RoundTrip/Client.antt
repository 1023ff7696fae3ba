-- ===== src/Element/RoundTrip/Client.antt =====
-- The client's classes of protocol/element3.py: what is serialised is parsed, class by class.
use Prim.Native.Nat.{max}
use pg_cluster.Base.{
  ==-refl, All, Avoids, Bytes, List, [], ap, arith, bytes_eq_refl, drop, drop-drop, length, ok,
  refl, slice-append, sym, take, take-length, ℕ, ◌*◌, ◌++◌, ◌+◌, ◌∙◌, ◌∷◌, ◌≡◌,
}
use pg_cluster.Element.Backend.{serialize_string}
use pg_cluster.Element.Class.{cancel_version, ssl_version}
use pg_cluster.Element.Fields.{concat, read_formats, unpack_three, unpack_two}
use pg_cluster.Element.Frontend.{
  parse_bind, parse_cancel_request, parse_execute, parse_function, parse_negotiate_ssl, parse_parse,
  parse_target, serialize_bind, serialize_cancel_request, serialize_execute, serialize_function,
  serialize_parse, serialize_target,
}
use pg_cluster.Element.Message.{
  Datum, Message, bind, cancel_request, execute, function, negotiate_ssl, parse_statement,
}
use pg_cluster.Element.RoundTrip.Arguments.{
  args_end, argument_part, arguments_read, drop_arguments, first_count, formats_slice, second_count,
  slice-drop,
}
use pg_cluster.Element.RoundTrip.Arrays.{
  IsPair, IsUlong, IsUshort, drop-be2, join_all-ulong, length-concat, length-ulong_bytes,
  read_formats-concat, read_ulongs-bytes, slice-be2, slice-be4, ulong_bytes, ulong_unpack-exact,
  ushort_unpack-exact,
}
use pg_cluster.Element.RoundTrip.Rows.{IsDatum, length-be4, pack_tuple_data-ok}
use pg_cluster.Element.RoundTrip.Server.{kill_information_lem, string_lem}
use pg_cluster.Element.RoundTrip.Texts.{split_one_rest, split_two_rest}
use pg_cluster.Struct.{be2, be4}
use pg_cluster.Struct.RoundTrip.{ulong_pack-ok, ushort_pack-ok}

pub cancel_request_lem :
    (pid key : ℕ)
    → IsUlong pid
    → IsUlong key
    → (v : Bytes) × (serialize_cancel_request pid key ≡ ok v)
      × (parse_cancel_request v ≡ ok (cancel_request pid key))
unfolding serialize_cancel_request parse_cancel_request
cancel_request_lem pid key hp hk =
    let (body, packed, back) = kill_information_lem cancel_request pid key hp hk in
    (
      cancel_version ++ body,
      rw packed,
      rw (slice-append 0 4 [] cancel_version body refl refl, bytes_eq_refl cancel_version, back),
    )

pub negotiate_ssl_lem : parse_negotiate_ssl ssl_version ≡ ok negotiate_ssl
unfolding parse_negotiate_ssl
negotiate_ssl_lem = rw (bytes_eq_refl ssl_version)

pub parse_lem :
    (name statement : Bytes) (types : List ℕ)
    → Avoids 0 name
    → Avoids 0 statement
    → IsUshort (length types)
    → All IsUlong types
    → (v : Bytes) × (serialize_parse name statement types ≡ ok v)
      × (parse_parse v ≡ ok (parse_statement name statement types))
unfolding serialize_parse parse_parse unpack_three
parse_lem name statement types hn hs n h =
    let args = be2 (length types) ++ ulong_bytes types in
    (
      name ++ 0 ∷ (statement ++ 0 ∷ args),
      rw (ushort_pack-ok (length types) n, join_all-ulong types h),
      rw (
        split_two_rest name statement args hn hs,
        slice-be2 (length types) (ulong_bytes types),
        ushort_unpack-exact (length types),
        drop-be2 (length types) (ulong_bytes types),
        length-ulong_bytes types,
        ==-refl (length types * 4),
        read_ulongs-bytes types,
      ),
    )

pub execute_lem :
    (name : Bytes) (max : ℕ)
    → Avoids 0 name
    → IsUlong max
    → (v : Bytes) × (serialize_execute name max ≡ ok v) × (parse_execute v ≡ ok (execute name max))
unfolding serialize_execute parse_execute unpack_two
execute_lem name max hn h = (
  name ++ 0 ∷ be4 max,
  rw (ulong_pack-ok max h),
  rw (split_one_rest name (be4 max) hn, ulong_unpack-exact max),
)

-- Describe and Close, whatever the one-byte subtype.
pub target_lem :
    (subtype : ℕ) (typ : Bytes → Message) (text : Bytes)
    → parse_target (subtype ∷ []) typ (serialize_target (subtype ∷ []) text) ≡ ok (typ text)
unfolding parse_target serialize_target
target_lem subtype typ text =
    rw (slice-append 0 1 [] (subtype ∷ []) (text ++ 0 ∷ []) refl refl, bytes_eq_refl (subtype ∷ []))
      (unfold serialize_string in string_lem typ text)

take-be2 : (x : ℕ) (rest : Bytes) → take 2 (be2 x ++ rest) ≡ be2 x
unfolding be2
take-be2 x rest = refl

take-concat : (xs : List Bytes) → All IsPair xs → take (2 * length xs) (concat xs) ≡ concat xs
take-concat xs h = rw (← length-concat xs h) (take-length (concat xs))

module _ (formats : List Bytes) (args : List Datum) (pairs : All IsPair formats)
    (same : length formats ≡ length args) (data_ok : All IsDatum args)
    (args_fit : IsUshort (length args)) where
  formats_back : (n : ℕ) → n ≡ length args → read_formats n (concat formats) ≡ ok formats
  formats_back n e = rw (e ∙ sym same) (read_formats-concat formats pairs)

  pub function_lem :
      (oid : ℕ) (rformat : Bytes)
      → IsUlong oid
      → (v : Bytes) × (serialize_function oid formats args rformat ≡ ok v)
        × (parse_function v ≡ ok (function oid formats args rformat))
  unfolding serialize_function parse_function
  function_lem oid rformat h =
      let front = be4 oid in
      let n = length args in
      let l = sym (length-be4 oid) in
      (
        argument_part front rformat 4 l formats args pairs same data_ok,
        rw (ushort_pack-ok n args_fit, ulong_pack-ok oid h, pack_tuple_data-ok args data_ok),
        rw (
          slice-be4 oid _,
          ulong_unpack-exact oid,
          first_count front rformat 4 l formats args pairs same data_ok 4 6 refl refl,
          ushort_unpack-exact n,
          formats_slice front rformat 4 l formats args pairs same data_ok 6 (6 + 2 * n) refl
              (omega arith),
          formats_back n refl,
          second_count front rformat 4 l formats args pairs same data_ok (6 + 2 * n) (6 + 2 * n + 2)
              (omega arith) refl,
          ushort_unpack-exact n,
          arguments_read front rformat 4 l formats args pairs same data_ok (6 + 2 * n + 2)
              (omega arith),
          drop_arguments front rformat 4 l formats args pairs same data_ok,
        ),
      )

  pub bind_lem :
      (name statement : Bytes) (rformats : List Bytes)
      → Avoids 0 name
      → Avoids 0 statement
      → IsUshort (length rformats)
      → All IsPair rformats
      → (v : Bytes) × (serialize_bind name statement formats args rformats ≡ ok v)
        × (parse_bind v ≡ ok (bind name statement formats args rformats))
  unfolding serialize_bind parse_bind unpack_three
  bind_lem name statement rformats hn hs rfit rpairs =
      let n = length args in
      let r = length rformats in
      let tail = be2 r ++ concat rformats in
      let part = argument_part [] tail 0 refl formats args pairs same data_ok in
      let end = args_end [] tail 0 refl formats args pairs same data_ok in
      let at_end = drop_arguments [] tail 0 refl formats args pairs same data_ok in
      let after : drop (end + 2) part ≡ concat rformats =
        sym (drop-drop 2 end (end + 2) part refl)
        ∙ ap (λ (t : Bytes). drop 2 t) at_end
        ∙ drop-be2 r (concat rformats) in
      (
        name ++ 0 ∷ (statement ++ 0 ∷ part),
        rw (ushort_pack-ok n args_fit, pack_tuple_data-ok args data_ok, ushort_pack-ok r rfit),
        rw (
          split_two_rest name statement part hn hs,
          first_count [] tail 0 refl formats args pairs same data_ok 0 2 refl refl,
          ushort_unpack-exact n,
          formats_slice [] tail 0 refl formats args pairs same data_ok 2 (2 + 2 * n) refl
              (omega arith),
          formats_back n refl,
          second_count [] tail 0 refl formats args pairs same data_ok (2 + 2 * n) (2 + 2 * n + 2)
              (omega arith) refl,
          ushort_unpack-exact n,
          arguments_read [] tail 0 refl formats args pairs same data_ok (2 + 2 * n + 2)
              (omega arith),
          slice-drop end (end + 2) 2 part tail at_end refl,
          take-be2 r (concat rformats),
          ushort_unpack-exact r,
          slice-drop (end + 2) (end + 2 + 2 * r) (2 * r) part (concat rformats) after refl,
          take-concat rformats rpairs,
          read_formats-concat rformats rpairs,
        ),
      )
