-- ===== src/Element/Typed.antt =====
-- The methods `parse` of protocol/element3.py, by the class of what they return.
use pg_cluster.Base.{
  Bool, Bytes, List, Option, Outcome, [], bytes_eq, drop, false, guard, if◌then◌else◌, length, none,
  ok, raise, refl, slice, some, split_max, struct_error, true, value_error, ℕ, ◌*◌, ◌+◌, ◌==◌,
  ◌>>=◌, ◌∷◌, ◌≡◌, ◌≢◌,
}
use pg_cluster.Element.Attributes.{null_size, read_attributes}
use pg_cluster.Element.Backend.{
  is_possible_state, parse_attribute_types, parse_authentication, parse_complete_tag,
  parse_copy_begin, parse_empty, parse_function_result, parse_kill_information, parse_notice,
  parse_notify, parse_ready, parse_show_option, parse_string, parse_tuple, parse_tuple_descriptor,
  read_columns, show_option_of, unpack_copy_header,
}
use pg_cluster.Element.Class.{
  Class, cancel_version, portal_subtype, ssl_version, startup_version, statement_subtype,
}
use pg_cluster.Element.Fields.{
  chop_nul, read_formats, read_ulongs, read_ushorts, unpack_three, unpack_two,
}
use pg_cluster.Element.Frontend.{
  parse_bind, parse_cancel_request, parse_execute, parse_function, parse_negotiate_ssl, parse_parse,
  parse_startup, parse_target,
}
use pg_cluster.Element.Message.{
  Datum, Message, Parsed, bind_complete, cancel_request, class_of, close_complete, close_portal,
  close_statement, copy_done, copy_fail, copy_from_begin, copy_to_begin, describe_portal,
  describe_statement, disconnect, element_of, flush, kill_information, no_data, null,
  parse_complete, password, plain_tuple, query, suspension, synchronize,
}
use pg_cluster.Element.Wire.{as_element, as_tuple, parse}
use pg_cluster.Struct.{ulong_unpack, ushort_unpack}

-- A call returns a message of the class, or raises.
pub IsOf : Class → Outcome Message → Type 0
IsOf c (ok m) = class_of m ≡ c
IsOf c (raise e) = Unit

module _ (c : Class) where
  bind-IsOf {ℓ} :
      {A : Type ℓ} (call : Outcome A) (rest : A → Outcome Message)
      → ((x : A) → IsOf c (rest x))
      → IsOf c (call >>= rest)
  unfolding IsOf
  bind-IsOf (ok x) rest h = h x
  bind-IsOf (raise e) rest h = tt

  if-IsOf : (b : Bool) (p q : Outcome Message) → IsOf c p → IsOf c q → IsOf c (if b then p else q)
  if-IsOf true p q h k = h
  if-IsOf false p q h k = k

  parse_empty-IsOf : (m : Message) (v : Bytes) → class_of m ≡ c → IsOf c (parse_empty m v)
  unfolding parse_empty IsOf
  parse_empty-IsOf m [] h = h
  parse_empty-IsOf m (b ∷ v) h = tt

  parse_string-IsOf :
      (typ : Bytes → Message) (v : Bytes)
      → ((t : Bytes) → class_of (typ t) ≡ c)
      → IsOf c (parse_string typ v)
  unfolding parse_string IsOf
  parse_string-IsOf typ v h = chopped (chop_nul v)
    where
      chopped :
          (o : Option Bytes)
          → IsOf c (elim o [ none ↦ raise value_error | some text ↦ ok (typ text) ])
      chopped none = tt
      chopped (some t) = h t

  parse_target-IsOf :
      (subtype : Bytes) (typ : Bytes → Message) (v : Bytes)
      → ((t : Bytes) → class_of (typ t) ≡ c)
      → IsOf c (parse_target subtype typ v)
  unfolding parse_target IsOf
  parse_target-IsOf subtype typ v h =
      if-IsOf (bytes_eq (slice 0 1 v) subtype) _ _ (parse_string-IsOf typ (drop 1 v) h) tt

  parse_kill_information-IsOf :
      (typ : ℕ → ℕ → Message) (v : Bytes)
      → ((p k : ℕ) → class_of (typ p k) ≡ c)
      → IsOf c (parse_kill_information typ v)
  unfolding parse_kill_information IsOf
  parse_kill_information-IsOf typ v h =
      bind-IsOf (guard (length v == 8) struct_error) _ (λ u.
        bind-IsOf (ulong_unpack v) _ (λ p. bind-IsOf (ulong_unpack (drop 4 v)) _ (λ k. h p k)))

  parse_copy_begin-IsOf :
      (typ : ℕ → List ℕ → Message) (v : Bytes)
      → ((f : ℕ) (fs : List ℕ) → class_of (typ f fs) ≡ c)
      → IsOf c (parse_copy_begin typ v)
  unfolding parse_copy_begin IsOf
  parse_copy_begin-IsOf typ v h = bind-IsOf (unpack_copy_header v) _ (λ p.
      bind-IsOf (guard (length (drop 3 v) == p.1 * 2) value_error) _
        (λ u. bind-IsOf (read_ushorts p.1 (drop 3 v)) _ (λ fs. h p.0 fs)))

show_option_of-IsOf : (parts : List Bytes) → IsOf Class.show_option (show_option_of parts)
unfolding show_option_of class_of IsOf
show_option_of-IsOf [] = tt
show_option_of-IsOf (a ∷ []) = tt
show_option_of-IsOf (a ∷ b ∷ rest) = refl

parse_notify-IsOf : (v : Bytes) → IsOf Class.notify (parse_notify v)
unfolding parse_notify class_of IsOf
parse_notify-IsOf v =
    bind-IsOf Class.notify (ulong_unpack v) _
      (λ pid. bind-IsOf Class.notify (unpack_three (split_max 0 2 (drop 4 v))) _ (λ p. refl))

parse_attribute_types-IsOf : (v : Bytes) → IsOf Class.attribute_types (parse_attribute_types v)
unfolding parse_attribute_types class_of IsOf
parse_attribute_types-IsOf v =
    bind-IsOf Class.attribute_types (ushort_unpack (slice 0 2 v)) _ (λ ac.
      bind-IsOf Class.attribute_types (guard (length (drop 2 v) == ac * 4) value_error) _
        (λ u. bind-IsOf Class.attribute_types (read_ulongs ac (drop 2 v)) _ (λ types. refl)))

parse_tuple_descriptor-IsOf : (v : Bytes) → IsOf Class.tuple_descriptor (parse_tuple_descriptor v)
unfolding parse_tuple_descriptor class_of IsOf
parse_tuple_descriptor-IsOf v =
    bind-IsOf Class.tuple_descriptor (ushort_unpack (slice 0 2 v)) _
      (λ ac. bind-IsOf Class.tuple_descriptor (read_columns ac (drop 2 v)) _ (λ cs. refl))

parse_authentication-IsOf : (v : Bytes) → IsOf Class.authentication (parse_authentication v)
unfolding parse_authentication class_of IsOf
parse_authentication-IsOf v =
    bind-IsOf Class.authentication (ulong_unpack (slice 0 4 v)) _ (λ r. refl)

parse_parse-IsOf : (v : Bytes) → IsOf Class.parse (parse_parse v)
unfolding parse_parse class_of IsOf
parse_parse-IsOf v = bind-IsOf Class.parse (unpack_three (split_max 0 2 v)) _ (λ p.
    bind-IsOf Class.parse (ushort_unpack (slice 0 2 p.2)) _ (λ ac.
      bind-IsOf Class.parse (guard (length (drop 2 p.2) == ac * 4) value_error) _
        (λ u. bind-IsOf Class.parse (read_ulongs ac (drop 2 p.2)) _ (λ ts. refl))))

parse_execute-IsOf : (v : Bytes) → IsOf Class.execute (parse_execute v)
unfolding parse_execute class_of IsOf
parse_execute-IsOf v =
    bind-IsOf Class.execute (unpack_two (split_max 0 1 v)) _
      (λ p. bind-IsOf Class.execute (ulong_unpack p.1) _ (λ m. refl))

parse_bind-IsOf : (v : Bytes) → IsOf Class.bind (parse_bind v)
unfolding parse_bind class_of IsOf
parse_bind-IsOf v = bind-IsOf Class.bind (unpack_three (split_max 0 2 v)) _ (λ p.
    bind-IsOf Class.bind (ushort_unpack (slice 0 2 p.2)) _ (λ ac.
      bind-IsOf Class.bind (read_formats ac (slice 2 (2 + 2 * ac) p.2)) _ (λ fs.
        bind-IsOf Class.bind (ushort_unpack (slice (2 + 2 * ac) (2 + 2 * ac + 2) p.2)) _ (λ n.
          bind-IsOf Class.bind (read_attributes n p.2 (2 + 2 * ac + 2)) _ (λ q.
            bind-IsOf Class.bind (ushort_unpack (slice q.1 (q.1 + 2) p.2)) _ (λ rfc.
              bind-IsOf Class.bind (read_formats rfc (slice (q.1 + 2) (q.1 + 2 + 2 * rfc) p.2)) _
                (λ rs. refl)))))))

parse_function-IsOf : (v : Bytes) → IsOf Class.function (parse_function v)
unfolding parse_function class_of IsOf
parse_function-IsOf v = bind-IsOf Class.function (ulong_unpack (slice 0 4 v)) _ (λ oid.
    bind-IsOf Class.function (ushort_unpack (slice 4 6 v)) _ (λ ac.
      bind-IsOf Class.function (read_formats ac (slice 6 (6 + 2 * ac) v)) _ (λ fs.
        bind-IsOf Class.function (ushort_unpack (slice (6 + 2 * ac) (6 + 2 * ac + 2) v)) _
          (λ n. bind-IsOf Class.function (read_attributes n v (6 + 2 * ac + 2)) _ (λ q. refl)))))

parse_function_result-IsOf : (v : Bytes) → IsOf Class.function_result (parse_function_result v)
unfolding parse_function_result class_of IsOf
parse_function_result-IsOf v = if-IsOf Class.function_result (bytes_eq v null_size) _ _ refl (
    bind-IsOf Class.function_result (ulong_unpack (slice 0 4 v)) _ (λ size.
      bind-IsOf Class.function_result (guard (size == length (drop 4 v)) value_error) _
        (λ u. refl)))

parse_ready-IsOf : (v : Bytes) → IsOf Class.ready (parse_ready v)
unfolding parse_ready class_of IsOf
parse_ready-IsOf v = if-IsOf Class.ready (is_possible_state v) _ _ refl tt

parse_negotiate_ssl-IsOf : (v : Bytes) → IsOf Class.negotiate_ssl (parse_negotiate_ssl v)
unfolding parse_negotiate_ssl class_of IsOf
parse_negotiate_ssl-IsOf v = if-IsOf Class.negotiate_ssl (bytes_eq v ssl_version) _ _ refl tt

parse_startup-IsOf : (v : Bytes) → IsOf Class.startup (parse_startup v)
unfolding parse_startup class_of IsOf
parse_startup-IsOf v = if-IsOf Class.startup (bytes_eq (slice 0 4 v) startup_version) _ _ refl tt

parse_cancel_request-IsOf : (v : Bytes) → IsOf Class.cancel_request (parse_cancel_request v)
unfolding parse_cancel_request class_of IsOf
parse_cancel_request-IsOf v =
    if-IsOf Class.cancel_request (bytes_eq (slice 0 4 v) cancel_version) _ _
      (parse_kill_information-IsOf Class.cancel_request cancel_request (drop 4 v) (λ p k. refl)) tt

-- What `parse` of a class may do: a plain tuple is what Tuple returns, and the other classes return
-- an instance of themselves.
pub IsReturned : Class → Outcome Parsed → Type 0
IsReturned c (ok (element_of m)) = (class_of m ≡ c) × (c ≢ Class.tuple)
IsReturned c (ok (plain_tuple atts)) = c ≡ Class.tuple
IsReturned c (raise e) = Unit

element-IsReturned :
    (c : Class) (o : Outcome Message) → c ≢ Class.tuple → IsOf c o → IsReturned c (as_element o)
unfolding as_element IsOf IsReturned
element-IsReturned c (ok m) n h = (h, n)
element-IsReturned c (raise e) n h = tt

tuple-IsReturned : (o : Outcome (List Datum)) → IsReturned Class.tuple (as_tuple o)
unfolding as_tuple IsReturned
tuple-IsReturned (ok atts) = refl
tuple-IsReturned (raise e) = tt

-- Whatever the body, `parse` of a class raises or returns an instance of that class, but for Tuple,
-- which raises or returns a plain tuple.
pub parse-IsOf : (c : Class) (v : Bytes) → IsReturned c (parse c v)
unfolding parse class_of parse_show_option parse_complete_tag parse_notice IsOf
parse-IsOf Class.notify v = element-IsReturned Class.notify _ (λ q. cc) (parse_notify-IsOf v)
parse-IsOf Class.show_option v =
    element-IsReturned Class.show_option _ (λ q. cc) (show_option_of-IsOf (split_max 0 2 v))
parse-IsOf Class.complete v = element-IsReturned Class.complete _ (λ q. cc) refl
parse-IsOf Class.null v =
    element-IsReturned Class.null _ (λ q. cc) (parse_empty-IsOf Class.null null v refl)
parse-IsOf Class.no_data v =
    element-IsReturned Class.no_data _ (λ q. cc) (parse_empty-IsOf Class.no_data no_data v refl)
parse-IsOf Class.parse_complete v =
    element-IsReturned Class.parse_complete _ (λ q. cc)
      (parse_empty-IsOf Class.parse_complete parse_complete v refl)
parse-IsOf Class.bind_complete v =
    element-IsReturned Class.bind_complete _ (λ q. cc)
      (parse_empty-IsOf Class.bind_complete bind_complete v refl)
parse-IsOf Class.close_complete v =
    element-IsReturned Class.close_complete _ (λ q. cc)
      (parse_empty-IsOf Class.close_complete close_complete v refl)
parse-IsOf Class.suspension v =
    element-IsReturned Class.suspension _ (λ q. cc)
      (parse_empty-IsOf Class.suspension suspension v refl)
parse-IsOf Class.ready v = element-IsReturned Class.ready _ (λ q. cc) (parse_ready-IsOf v)
parse-IsOf Class.notice v = element-IsReturned Class.notice _ (λ q. cc) refl
parse-IsOf Class.error v = element-IsReturned Class.error _ (λ q. cc) refl
parse-IsOf Class.function_result v =
    element-IsReturned Class.function_result _ (λ q. cc) (parse_function_result-IsOf v)
parse-IsOf Class.attribute_types v =
    element-IsReturned Class.attribute_types _ (λ q. cc) (parse_attribute_types-IsOf v)
parse-IsOf Class.tuple_descriptor v =
    element-IsReturned Class.tuple_descriptor _ (λ q. cc) (parse_tuple_descriptor-IsOf v)
parse-IsOf Class.tuple v = tuple-IsReturned (parse_tuple v)
parse-IsOf Class.kill_information v =
    element-IsReturned Class.kill_information _ (λ q. cc)
      (parse_kill_information-IsOf Class.kill_information kill_information v (λ p k. refl))
parse-IsOf Class.cancel_request v =
    element-IsReturned Class.cancel_request _ (λ q. cc) (parse_cancel_request-IsOf v)
parse-IsOf Class.negotiate_ssl v =
    element-IsReturned Class.negotiate_ssl _ (λ q. cc) (parse_negotiate_ssl-IsOf v)
parse-IsOf Class.startup v = element-IsReturned Class.startup _ (λ q. cc) (parse_startup-IsOf v)
parse-IsOf Class.authentication v =
    element-IsReturned Class.authentication _ (λ q. cc) (parse_authentication-IsOf v)
parse-IsOf Class.password v =
    element-IsReturned Class.password _ (λ q. cc)
      (parse_string-IsOf Class.password password v (λ t. refl))
parse-IsOf Class.disconnect v =
    element-IsReturned Class.disconnect _ (λ q. cc)
      (parse_empty-IsOf Class.disconnect disconnect v refl)
parse-IsOf Class.flush v =
    element-IsReturned Class.flush _ (λ q. cc) (parse_empty-IsOf Class.flush flush v refl)
parse-IsOf Class.synchronize v =
    element-IsReturned Class.synchronize _ (λ q. cc)
      (parse_empty-IsOf Class.synchronize synchronize v refl)
parse-IsOf Class.query v =
    element-IsReturned Class.query _ (λ q. cc) (parse_string-IsOf Class.query query v (λ t. refl))
parse-IsOf Class.parse v = element-IsReturned Class.parse _ (λ q. cc) (parse_parse-IsOf v)
parse-IsOf Class.bind v = element-IsReturned Class.bind _ (λ q. cc) (parse_bind-IsOf v)
parse-IsOf Class.execute v = element-IsReturned Class.execute _ (λ q. cc) (parse_execute-IsOf v)
parse-IsOf Class.describe_statement v =
    element-IsReturned Class.describe_statement _ (λ q. cc)
      (parse_target-IsOf Class.describe_statement statement_subtype describe_statement v
        (λ t. refl))
parse-IsOf Class.describe_portal v =
    element-IsReturned Class.describe_portal _ (λ q. cc)
      (parse_target-IsOf Class.describe_portal portal_subtype describe_portal v (λ t. refl))
parse-IsOf Class.close_statement v =
    element-IsReturned Class.close_statement _ (λ q. cc)
      (parse_target-IsOf Class.close_statement statement_subtype close_statement v (λ t. refl))
parse-IsOf Class.close_portal v =
    element-IsReturned Class.close_portal _ (λ q. cc)
      (parse_target-IsOf Class.close_portal portal_subtype close_portal v (λ t. refl))
parse-IsOf Class.function v = element-IsReturned Class.function _ (λ q. cc) (parse_function-IsOf v)
parse-IsOf Class.copy_to_begin v =
    element-IsReturned Class.copy_to_begin _ (λ q. cc)
      (parse_copy_begin-IsOf Class.copy_to_begin copy_to_begin v (λ f fs. refl))
parse-IsOf Class.copy_from_begin v =
    element-IsReturned Class.copy_from_begin _ (λ q. cc)
      (parse_copy_begin-IsOf Class.copy_from_begin copy_from_begin v (λ f fs. refl))
parse-IsOf Class.copy_data v = element-IsReturned Class.copy_data _ (λ q. cc) refl
parse-IsOf Class.copy_fail v =
    element-IsReturned Class.copy_fail _ (λ q. cc)
      (parse_string-IsOf Class.copy_fail copy_fail v (λ t. refl))
parse-IsOf Class.copy_done v =
    element-IsReturned Class.copy_done _ (λ q. cc)
      (parse_empty-IsOf Class.copy_done copy_done v refl)
