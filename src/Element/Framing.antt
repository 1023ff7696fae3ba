-- ===== src/Element/Framing.antt =====
-- `Message.bytes` and `cat_messages` of protocol/element3.py: the frame around a body, and the
-- short ways of `cat_messages` for rows and COPY lines.
use pg_cluster.Base.{
  All, Bytes, List, [], arith, length, length-append, lt→ltb, map, ok, refl, sym, ℕ, ◌++◌, ◌+◌, ◌<◌,
  ◌∙◌, ◌∷◌, ◌≡◌,
}
use pg_cluster.Base.Int.{pos}
use pg_cluster.Element.Backend.{serialize_tuple}
use pg_cluster.Element.Class.{Class, type_of}
use pg_cluster.Element.Fields.{join_all}
use pg_cluster.Element.Message.{Message, class_of, copy_data, tuple}
use pg_cluster.Element.RoundTrip.Arrays.{IsUshort}
use pg_cluster.Element.RoundTrip.Rows.{IsDatum, length-be2, pack_tuple_data-ok, row_bytes}
use pg_cluster.Element.Wire.{
  Outgoing, cat_messages, element, frame, frame_as, line, outgoing_bytes, pack_row, row, serialize,
  to_bytes,
}
use pg_cluster.Struct.{be2, be4, long_pack, signed_pattern}
use pg_cluster.Struct.RoundTrip.{ulong_pack-ok, ushort_pack-ok}

-- The classes whose messages have a type byte.
abbrev pub IsTyped : Class → Type 0
IsTyped Class.cancel_request = ⊥
IsTyped Class.negotiate_ssl = ⊥
IsTyped Class.startup = ⊥
IsTyped c = Unit

-- The type byte of a typed class.
unfoldable pub type_byte : Class → ℕ
type_byte c = elim (type_of c) [ [] ↦ 0 | t ∷ ts ↦ t ]

pub frame_as-typed :
    (c : Class) (v : Bytes)
    → IsTyped c
    → length v + 4 < 4294967296
    → frame_as c v ≡ ok (type_byte c ∷ (be4 (length v + 4) ++ v))
unfolding frame_as frame type_byte type_of
frame_as-typed Class.cancel_request v h fits = absurd h
frame_as-typed Class.negotiate_ssl v h fits = absurd h
frame_as-typed Class.startup v h fits = absurd h
frame_as-typed _ v h fits = rw (ulong_pack-ok (length v + 4) fits)

-- `long_pack` and `ulong_pack` write the same bytes below 2 ^ 31.
pub long_pack-small : (n : ℕ) → n < 2147483648 → long_pack (pos n) ≡ ok (be4 n)
unfolding long_pack signed_pattern
long_pack-small n h = rw (lt→ltb n 2147483648 h, ulong_pack-ok n (omega arith))

-- What a bare value of `cat_messages` stands for.
abbrev pub as_message : Outgoing → Message
as_message (line x) = copy_data x
as_message (row t) = tuple t
as_message (element m) = m

-- Lines and rows whose size field is below 2 ^ 31; whole messages are not restricted.
abbrev pub IsSmall : Outgoing → Type 0
IsSmall (line x) = length x + 4 < 2147483648
IsSmall (row t) = All IsDatum t × IsUshort (length t) × (length (row_bytes t) + 6 < 2147483648)
IsSmall (element m) = Unit

outgoing_bytes-small : (x : Outgoing) → IsSmall x → outgoing_bytes x ≡ to_bytes (as_message x)
unfolding outgoing_bytes to_bytes
outgoing_bytes-small (line x) h = rw (long_pack-small (length x + 4) h) (
    unfold serialize class_of in
    sym (frame_as-typed Class.copy_data x tt (omega arith) ∙ unfold type_byte type_of in refl))
outgoing_bytes-small (row t) h =
    let r = row_bytes t in
    let count = be2 (length t) in
    let size : length (count ++ r) + 4 ≡ length r + 6 =
      omega (arith, length-append count r, length-be2 (length t)) in
    unfold pack_row serialize serialize_tuple class_of in
    rw
      (
        pack_tuple_data-ok t h.0,
        long_pack-small (length r + 6) h.2,
        ushort_pack-ok (length t) h.1,
        frame_as-typed Class.tuple (count ++ r) tt (omega (arith, size, h.2)),
        size,
      )
      (unfold type_byte type_of in refl)
outgoing_bytes-small (element m) h = refl

-- Where the size of each bare line and bare row, with its four bytes, is below 2 ^ 31, and each
-- bare row has less than 2 ^ 16 attributes, each of a length below 2 ^ 32 - 1: `cat_messages` is
-- the concatenation of the `bytes()` of the messages that the bare values stand for, also where
-- one of the whole messages raises.
pub cat_messages-bytes :
    (xs : List Outgoing) → All IsSmall xs → cat_messages xs ≡ join_all to_bytes (map as_message xs)
unfolding cat_messages join_all
cat_messages-bytes [] h = refl
cat_messages-bytes (x ∷ xs) h = rw (outgoing_bytes-small x h.0, cat_messages-bytes xs h.1)
