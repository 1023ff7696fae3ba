-- ===== src/Element/RoundTrip/Dicts.antt =====
-- The dictionary messages of protocol/element3.py: Notice, Error and Startup.
use pg_cluster.Base.{
  All, Avoids, Bytes, List, [], ap, append-nil, append_assoc, bytes_eq, bytes_eq_refl, false, none,
  ok, refl, slice-append, some, split, split-append, ◌++◌, ◌∷◌, ◌≡◌, ◌≢◌,
}
use pg_cluster.Element.Backend.{join_nul, notice_fields, notice_pairs, serialize_notice}
use pg_cluster.Element.Class.{startup_version}
use pg_cluster.Element.Fields.{dict_from, put_item}
use pg_cluster.Element.Frontend.{
  drop_last_two, parse_startup, serialize_startup, startup_fields, startup_pairs,
}
use pg_cluster.Element.Message.{Datum, Items, startup}

-- No item has this key.
abbrev pub HasNoKey : Bytes → Items → Type 0
HasNoKey k [] = Unit
HasNoKey k ((j, v) ∷ d) = (bytes_eq j k ≡ false) × HasNoKey k d

pub put_item-new :
    (k : Bytes) (v : Datum) (d : Items) → HasNoKey k d → put_item k v d ≡ d ++ (k, v) ∷ []
unfolding put_item
put_item-new k v [] h = refl
put_item-new k v ((j, w) ∷ d) h = rw (h.0, put_item-new k v d h.1)

-- Each key occurs once: `d` holds none of the keys that follow, and those are distinct.
abbrev pub HasDistinctKeys : Items → Items → Type 0
HasDistinctKeys d [] = Unit
HasDistinctKeys d ((k, v) ∷ pairs) = HasNoKey k d × HasDistinctKeys (d ++ (k, v) ∷ []) pairs

pub dict_from-distinct :
    (d pairs : Items) → HasDistinctKeys d pairs → dict_from d pairs ≡ d ++ pairs
unfolding dict_from
dict_from-distinct d [] h = rw append-nil
dict_from-distinct d ((k, v) ∷ pairs) h =
    rw (put_item-new k v d h.0, dict_from-distinct (d ++ (k, v) ∷ []) pairs h.1)
      (append_assoc d ((k, v) ∷ []) pairs)

-- An item of a Notice or an Error as a server writes it: a one-byte field code, and a text.
abbrev pub IsNoticeItem : Bytes × Datum → Type 0
IsNoticeItem ((b ∷ []), some v) = (b ≢ 0) × Avoids 0 v
IsNoticeItem (k, v) = ⊥

split-join_nul :
    (x : Bytes) (xs : List Bytes)
    → Avoids 0 x
    → All (Avoids 0) xs
    → split 0 (join_nul (x ∷ xs) ++ 0 ∷ []) ≡ (x ∷ xs) ++ [] ∷ []
unfolding join_nul split
split-join_nul x [] h hs = split-append 0 x [] h
split-join_nul x (y ∷ xs) h hs =
    rw (append_assoc x (0 ∷ join_nul (y ∷ xs)) (0 ∷ []))
      (rw (split-append 0 x (join_nul (y ∷ xs) ++ 0 ∷ []) h, split-join_nul y xs hs.0 hs.1))

-- The pieces of well-formed items avoid NUL, and stand for the items.
notice_fields_lem :
    (d : Items)
    → All IsNoticeItem d
    → All (Avoids 0) (notice_fields d) × (notice_pairs (notice_fields d ++ [] ∷ []) ≡ d)
unfolding notice_fields notice_pairs
notice_fields_lem [] h = (tt, refl)
notice_fields_lem ((b ∷ [], some v) ∷ d) h =
    let (avoid, back) = notice_fields_lem d h.1 in
    ((h.0, avoid), ap (λ (t : Items). (b ∷ [], some v) ∷ t) back)
notice_fields_lem (([], v) ∷ d) h = absurd h.0
notice_fields_lem ((b ∷ c ∷ k, v) ∷ d) h = absurd h.0
notice_fields_lem ((b ∷ [], none) ∷ d) h = absurd h.0

split-notice :
    (xs : List Bytes)
    → All (Avoids 0) xs
    → notice_pairs (split 0 (join_nul xs ++ 0 ∷ [])) ≡ notice_pairs (xs ++ [] ∷ [])
split-notice [] h = unfold join_nul notice_pairs split in refl
split-notice (x ∷ xs) h = ap notice_pairs (split-join_nul x xs h.0 h.1)

-- What Notice and Error serialise is parsed into the same dictionary.
pub parse-serialize_notice :
    (d : Items)
    → All IsNoticeItem d
    → HasDistinctKeys [] d
    → dict_from [] (notice_pairs (split 0 (serialize_notice d))) ≡ d
unfolding serialize_notice
parse-serialize_notice d h keys =
    let (avoid, back) = notice_fields_lem d h in
    rw (split-notice (notice_fields d) avoid, back) (dict_from-distinct [] d keys)

-- An item of a Startup message.
abbrev pub IsStartupItem : Bytes × Datum → Type 0
IsStartupItem (k, some v) = Avoids 0 k × Avoids 0 v
IsStartupItem (k, none) = ⊥

abbrev startup_list : Items → List Bytes
startup_list [] = []
startup_list ((k, none) ∷ d) = startup_list d
startup_list ((k, some v) ∷ d) = k ∷ v ∷ startup_list d

split-startup_fields :
    (d : Items)
    → All IsStartupItem d
    → split 0 (startup_fields d ++ 0 ∷ []) ≡ startup_list d ++ [] ∷ [] ∷ []
unfolding startup_fields
split-startup_fields [] h = unfold split in refl
split-startup_fields ((k, none) ∷ d) h = absurd h.0
split-startup_fields ((k, some v) ∷ d) h =
    rw (append_assoc k (0 ∷ (v ++ 0 ∷ startup_fields d)) (0 ∷ [])) (
      rw (split-append 0 k ((v ++ 0 ∷ startup_fields d) ++ 0 ∷ []) h.0.0) (
        rw (append_assoc v (0 ∷ startup_fields d) (0 ∷ []))
          (rw (split-append 0 v (startup_fields d ++ 0 ∷ []) h.0.1, split-startup_fields d h.1))))

drop_last_two-append : (xs : List Bytes) → drop_last_two (xs ++ [] ∷ [] ∷ []) ≡ xs
unfolding drop_last_two
drop_last_two-append [] = refl
drop_last_two-append (x ∷ []) = refl
drop_last_two-append (x ∷ y ∷ []) = refl
drop_last_two-append (x ∷ y ∷ z ∷ xs) = ap (λ t. x ∷ t) (drop_last_two-append (y ∷ z ∷ xs))

startup_pairs-list :
    (d kw : Items) → All IsStartupItem d → startup_pairs none (startup_list d) kw ≡ dict_from kw d
unfolding startup_pairs dict_from
startup_pairs-list [] kw h = refl
startup_pairs-list ((k, none) ∷ d) kw h = absurd h.0
startup_pairs-list ((k, some v) ∷ d) kw h = startup_pairs-list d (put_item k (some v) kw) h.1

-- What Startup serialises is parsed into the same dictionary.
pub parse-serialize_startup :
    (d : Items)
    → All IsStartupItem d
    → HasDistinctKeys [] d
    → parse_startup (serialize_startup d) ≡ ok (startup d)
unfolding parse_startup serialize_startup
parse-serialize_startup d h keys = rw (
  slice-append 0 4 [] startup_version (startup_fields d ++ 0 ∷ []) refl refl,
  bytes_eq_refl startup_version,
  split-startup_fields d h,
  drop_last_two-append (startup_list d),
  startup_pairs-list d [] h,
  dict_from-distinct [] d keys,
)
