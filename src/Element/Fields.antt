-- ===== src/Element/Fields.antt =====
-- The pieces that the parsers of protocol/element3.py share: fixed-size arrays, what
-- `bytes.split` with an unpacking assignment gives, NUL-terminated strings, dictionaries.
use pg_cluster.Base.{
  Bytes, List, Option, Outcome, [], bytes_eq, drop, if◌then◌else◌, none, ok, raise, some,
  struct_error, suc, value_error, zero, ℕ, ◌++◌, ◌==◌, ◌>>=◌, ◌∷◌,
}
use pg_cluster.Element.Message.{Datum, Items}
use pg_cluster.Struct.{ulong_unpack, ushort_unpack}

-- `b''.join([f(x) for x in xs])`
unfoldable pub join_all {ℓ} : {A : Type ℓ} → (A → Outcome Bytes) → List A → Outcome Bytes
join_all f [] = ok []
join_all f (x ∷ xs) = do front ← f x; rest ← join_all f xs; ok (front ++ rest)

-- `b''.join(xs)`
abbrev pub concat : List Bytes → Bytes
concat [] = []
concat (x ∷ xs) = x ++ concat xs

-- `struct.unpack('!%dL' % n, v)`, after the test on `len(v)`
unfoldable pub read_ulongs : ℕ → Bytes → Outcome (List ℕ)
read_ulongs zero v = ok []
read_ulongs (suc n) v = do x ← ulong_unpack v; xs ← read_ulongs n (drop 4 v); ok (x ∷ xs)

-- `[ushort_unpack(v[x:x+2]) for x in range(0, n * 2, 2)]`
unfoldable pub read_ushorts : ℕ → Bytes → Outcome (List ℕ)
read_ushorts zero v = ok []
read_ushorts (suc n) v = do x ← ushort_unpack v; xs ← read_ushorts n (drop 2 v); ok (x ∷ xs)

-- `struct.unpack("2s" * n, v)`: the length must be exact.
unfoldable pub read_formats : ℕ → Bytes → Outcome (List Bytes)
read_formats zero [] = ok []
read_formats zero (b ∷ v) = raise struct_error
read_formats (suc n) (a ∷ b ∷ v) = do xs ← read_formats n v; ok ((a ∷ b ∷ []) ∷ xs)
read_formats (suc n) _ = raise struct_error

-- `a, b = xs`
unfoldable pub unpack_two : List Bytes → Outcome (Bytes × Bytes)
unpack_two (a ∷ b ∷ []) = ok (a, b)
unpack_two _ = raise value_error

-- `a, b, c = xs`
unfoldable pub unpack_three : List Bytes → Outcome (Bytes × Bytes × Bytes)
unpack_three (a ∷ b ∷ c ∷ []) = ok (a, b, c)
unpack_three _ = raise value_error

-- `xs.endswith(b'\x00')` with `xs[:-1]`: what is before a last NUL
unfoldable pub chop_nul : Bytes → Option Bytes
chop_nul [] = none
chop_nul (x ∷ []) = if x == 0 then some [] else none
chop_nul (x ∷ y ∷ xs) =
    let rest = chop_nul (y ∷ xs) in elim rest [ none ↦ none | some r ↦ some (x ∷ r) ]

-- `xs.rstrip(b'\x00')`
unfoldable pub rstrip_nul : Bytes → Bytes
rstrip_nul [] = []
rstrip_nul (x ∷ xs) =
    let rest = rstrip_nul xs in
    elim rest [ [] ↦ (if x == 0 then [] else x ∷ []) | y ∷ ys ↦ x ∷ y ∷ ys ]

-- `d[k] = v` on a dictionary: a key that is there keeps its place.
unfoldable pub put_item : Bytes → Datum → Items → Items
put_item k v [] = (k, v) ∷ []
put_item k v ((j, w) ∷ d) = if bytes_eq j k then (j, v) ∷ d else (j, w) ∷ put_item k v d

-- `dict(pairs)`
unfoldable pub dict_from : Items → Items → Items
dict_from d [] = d
dict_from d ((k, v) ∷ pairs) = dict_from (put_item k v d) pairs
