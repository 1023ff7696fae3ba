-- ===== src/Element/RoundTrip/Every.antt =====
-- The round trip of protocol/element3.py for all classes at once.
use Prim.Native.Nat.{max}
use pg_cluster.Base.{All, Avoids, Bytes, Outcome, [], ap, length, ok, refl, true, ◌<◌, ◌≡◌}
use pg_cluster.Element.Backend.{
  is_possible_state, parse_empty, parse_notice, parse_ready, serialize_notice,
  serialize_show_option, serialize_string,
}
use pg_cluster.Element.Class.{portal_subtype, ssl_version, statement_subtype}
use pg_cluster.Element.Frontend.{serialize_startup, serialize_target}
use pg_cluster.Element.Message.{
  Items, Message, Parsed, attribute_types, authentication, bind, bind_complete, cancel_request,
  class_of, close_complete, close_portal, close_statement, complete, copy_data, copy_done,
  copy_fail, copy_from_begin, copy_to_begin, describe_portal, describe_statement, disconnect,
  element_of, error, execute, flush, function, function_result, kill_information, negotiate_ssl,
  no_data, notice, notify, null, parse_complete, parse_statement, password, plain_tuple, query,
  ready, show_option, startup, suspension, synchronize, tuple, tuple_descriptor,
}
use pg_cluster.Element.RoundTrip.Arrays.{IsPair, IsUlong, IsUshort}
use pg_cluster.Element.RoundTrip.Client.{
  bind_lem, cancel_request_lem, execute_lem, function_lem, negotiate_ssl_lem, parse_lem, target_lem,
}
use pg_cluster.Element.RoundTrip.Columns.{IsColumn}
use pg_cluster.Element.RoundTrip.Dicts.{
  HasDistinctKeys, IsNoticeItem, IsStartupItem, parse-serialize_notice, parse-serialize_startup,
}
use pg_cluster.Element.RoundTrip.Rows.{IsDatum}
use pg_cluster.Element.RoundTrip.Server.{
  attribute_types_lem, authentication_lem, complete_lem, copy_begin_lem, function_result_lem,
  kill_information_lem, notify_lem, show_option_lem, string_lem, tuple_descriptor_lem, tuple_lem,
}
use pg_cluster.Element.RoundTrip.Texts.{NoTrailingNul}
use pg_cluster.Element.Wire.{as_element, as_tuple, parse, serialize}

-- The range of the slots of each class: integers fit their field, what is NUL-terminated holds no
-- NUL, formats are two bytes each and as many as the arguments, and dictionary keys are distinct.
abbrev pub IsWellFormed : Message → Type 0
IsWellFormed (notify pid channel payload) = IsUlong pid × Avoids 0 channel × Avoids 0 payload
IsWellFormed (show_option name value) = Avoids 0 name × Avoids 0 value
IsWellFormed (complete text) = NoTrailingNul text
IsWellFormed (ready xact_state) = is_possible_state xact_state ≡ true
IsWellFormed (notice d) = All IsNoticeItem d × HasDistinctKeys [] d
IsWellFormed (error d) = All IsNoticeItem d × HasDistinctKeys [] d
IsWellFormed (function_result r) = IsDatum r
IsWellFormed (attribute_types types) = IsUshort (length types) × All IsUlong types
IsWellFormed (tuple_descriptor columns) = IsUshort (length columns) × All IsColumn columns
IsWellFormed (tuple atts) = IsUshort (length atts) × All IsDatum atts
IsWellFormed (kill_information pid key) = IsUlong pid × IsUlong key
IsWellFormed (cancel_request pid key) = IsUlong pid × IsUlong key
IsWellFormed (startup d) = All IsStartupItem d × HasDistinctKeys [] d
IsWellFormed (authentication request salt) = IsUlong request
IsWellFormed (parse_statement name statement types) =
    Avoids 0 name × Avoids 0 statement × IsUshort (length types) × All IsUlong types
IsWellFormed (bind name statement aformats args rformats) =
    Avoids 0 name
    × Avoids 0 statement
    × All IsPair aformats
    × (length aformats ≡ length args)
    × All IsDatum args
    × IsUshort (length args)
    × IsUshort (length rformats)
    × All IsPair rformats
IsWellFormed (execute name max) = Avoids 0 name × IsUlong max
IsWellFormed (function oid aformats args rformat) =
    IsUlong oid
    × All IsPair aformats
    × (length aformats ≡ length args)
    × All IsDatum args
    × IsUshort (length args)
IsWellFormed (copy_to_begin format formats) =
    (format < 256) × IsUshort (length formats) × All IsUshort formats
IsWellFormed (copy_from_begin format formats) =
    (format < 256) × IsUshort (length formats) × All IsUshort formats
IsWellFormed _ = Unit

-- What the class of a message parses its body to: the message, and for a row the plain tuple of its
-- attributes, which Python takes to be equal to it.
abbrev pub received_as : Message → Parsed
received_as (tuple atts) = plain_tuple atts
received_as m = element_of m

-- The message is serialised, and the class of the message parses that body back.
abbrev pub RoundTrips : Message → Type 0
RoundTrips m = (v : Bytes) × (serialize m ≡ ok v) × (parse (class_of m) v ≡ ok (received_as m))

module _ {o : Outcome Bytes} {p : Bytes → Outcome Message} {m : Message} where
  back_as :
      (v : Bytes) × (o ≡ ok v) × (p v ≡ ok m)
      → (v : Bytes) × (o ≡ ok v) × (as_element (p v) ≡ ok (element_of m))
  unfolding as_element
  back_as (v, written, back) = (v, written, rw back refl)

-- Every well-formed message of every class is serialised without an exception, and its class
-- parses the body back to the same message, a row to the plain tuple of its attributes.
pub parse-serialize : (m : Message) → IsWellFormed m → RoundTrips m
unfolding serialize parse class_of as_element as_tuple parse_empty parse_ready parse_notice
parse-serialize (notify pid channel payload) h =
    back_as (notify_lem pid channel payload h.0 h.1 h.2)
parse-serialize (show_option name value) h =
    back_as (serialize_show_option name value, refl, show_option_lem name value h.0 h.1)
parse-serialize (complete text) h = back_as (serialize_string text, refl, complete_lem text h)
parse-serialize null h = ([], refl, refl)
parse-serialize no_data h = ([], refl, refl)
parse-serialize parse_complete h = ([], refl, refl)
parse-serialize bind_complete h = ([], refl, refl)
parse-serialize close_complete h = ([], refl, refl)
parse-serialize suspension h = ([], refl, refl)
parse-serialize (ready xact_state) h = back_as (xact_state, refl, rw h)
parse-serialize (notice d) h = (
  serialize_notice d,
  refl,
  ap (λ (t : Items). ok (element_of (notice t))) (parse-serialize_notice d h.0 h.1),
)
parse-serialize (error d) h = (
  serialize_notice d,
  refl,
  ap (λ (t : Items). ok (element_of (error t))) (parse-serialize_notice d h.0 h.1),
)
parse-serialize (function_result r) h = back_as (function_result_lem r h)
parse-serialize (attribute_types types) h = back_as (attribute_types_lem types h.0 h.1)
parse-serialize (tuple_descriptor columns) h = back_as (tuple_descriptor_lem columns h.0 h.1)
parse-serialize (tuple atts) h =
    let (v, written, back) = tuple_lem atts h.0 h.1 in (v, written, rw back refl)
parse-serialize (kill_information pid key) h =
    back_as (kill_information_lem kill_information pid key h.0 h.1)
parse-serialize (cancel_request pid key) h = back_as (cancel_request_lem pid key h.0 h.1)
parse-serialize negotiate_ssl h = back_as (ssl_version, refl, negotiate_ssl_lem)
parse-serialize (startup d) h =
    back_as (serialize_startup d, refl, parse-serialize_startup d h.0 h.1)
parse-serialize (authentication request salt) h = back_as (authentication_lem request salt h)
parse-serialize (password text) h = back_as (serialize_string text, refl, string_lem password text)
parse-serialize disconnect h = ([], refl, refl)
parse-serialize flush h = ([], refl, refl)
parse-serialize synchronize h = ([], refl, refl)
parse-serialize (query text) h = back_as (serialize_string text, refl, string_lem query text)
parse-serialize (parse_statement name statement types) h =
    back_as (parse_lem name statement types h.0 h.1 h.2 h.3)
parse-serialize (bind name statement aformats args rformats) h =
    back_as (bind_lem aformats args h.2 h.3 h.4 h.5 name statement rformats h.0 h.1 h.6 h.7)
parse-serialize (execute name max) h = back_as (execute_lem name max h.0 h.1)
parse-serialize (describe_statement text) h =
    back_as (serialize_target statement_subtype text, refl, target_lem b'S' describe_statement text)
parse-serialize (describe_portal text) h =
    back_as (serialize_target portal_subtype text, refl, target_lem b'P' describe_portal text)
parse-serialize (close_statement text) h =
    back_as (serialize_target statement_subtype text, refl, target_lem b'S' close_statement text)
parse-serialize (close_portal text) h =
    back_as (serialize_target portal_subtype text, refl, target_lem b'P' close_portal text)
parse-serialize (function oid aformats args rformat) h =
    back_as (function_lem aformats args h.1 h.2 h.3 h.4 oid rformat h.0)
parse-serialize (copy_to_begin format formats) h =
    back_as (copy_begin_lem copy_to_begin format formats h.0 h.1 h.2)
parse-serialize (copy_from_begin format formats) h =
    back_as (copy_begin_lem copy_from_begin format formats h.0 h.1 h.2)
parse-serialize (copy_data x) h = (x, refl, refl)
parse-serialize (copy_fail text) h =
    back_as (serialize_string text, refl, string_lem copy_fail text)
parse-serialize copy_done h = ([], refl, refl)
