-- ===== src/Passfile.antt =====
-- tools/pg_cluster_backend/psc/postgresql/pgpassfile.py: the fields of a line, and the lookup of a
-- password. A line is given stripped.
use pg_cluster.Base.{
  All, Bool, Bool-cases, Bytes, List, Option, [], bytes_eq, bytes_eq_refl, bytes_eq→eq, false,
  if◌then◌else◌, inl, inr, length, none, refl, some, split, true, ℕ, ◌%◌, ◌&&◌, ◌++◌, ◌+◌, ◌==◌,
  ◌||◌, ◌∷◌, ◌≡◌, ◌⊎◌,
}
use pg_cluster.Text.Quoting.{halve}

-- `x.replace('\\\\', '\\')`: pairs of backslashes to one, from the left.
unfoldable pub unescape : Bytes → Bytes
unescape xs = halve 92 false xs

-- `len(x) - len(x.rstrip('\\'))`
unfoldable pub trailing : ℕ → Bytes → ℕ
trailing n [] = n
trailing n (x ∷ xs) =
    let more = trailing (n + 1) xs in let again = trailing 0 xs in if x == 92 then more else again

-- `r[-1][:-1] + ':' + x`: a colon for the last character of the last field, and x.
unfoldable pub extend_field : Bytes → Bytes → Bytes
extend_field x [] = 58 ∷ x
extend_field x (c ∷ []) = 58 ∷ x
extend_field x (c ∷ d ∷ cs) = c ∷ extend_field x (d ∷ cs)

unfoldable pub extend_last : Bytes → List Bytes → List Bytes
extend_last x [] = []
extend_last x (f ∷ []) = extend_field x f ∷ []
extend_last x (f ∷ g ∷ fs) = f ∷ extend_last x (g ∷ fs)

-- The loop over the parts; `continues` where the last part ended in an odd number of backslashes.
unfoldable pub fields_of : Bool → List Bytes → List Bytes → List Bytes
fields_of continued r [] = r
fields_of continued r (x ∷ xs) =
    fields_of (trailing 0 x % 2 == 1)
      (if continued then extend_last (unescape x) r else r ++ unescape x ∷ []) xs

-- `split` of a stripped line
unfoldable pub split_line : Bytes → Option (List Bytes)
split_line [] = none
split_line (c ∷ cs) =
    let r = fields_of false [] (split 58 (c ∷ cs)) in if length r == 5 then some r else none

-- An entry of `parse`
pub record Login : Type 0 where
  pub word : Bytes
  pub host : Bytes
  pub port : Bytes
  pub database : Bytes
  pub user : Bytes

unfoldable pub entry_of : List Bytes → Option Login
entry_of (h ∷ p ∷ d ∷ u ∷ w ∷ []) =
    some (record { word = w; host = h; port = p; database = d; user = u })
entry_of _ = none

unfoldable pub parse_entry : Bytes → Option Login
parse_entry line = elim (split_line line) [ none ↦ none | some r ↦ entry_of r ]

-- `parse`
unfoldable pub parse_lines : List Bytes → List Login
parse_lines [] = []
parse_lines (l ∷ ls) = elim (parse_entry l) [ none ↦ parse_lines ls | some e ↦ e ∷ parse_lines ls ]

-- `w == '*' or w == value`
unfoldable pub accepts : Bytes → Bytes → Bool
accepts w value = bytes_eq w (42 ∷ []) || bytes_eq w value

unfoldable pub is_match : Bytes → Bytes → Bytes → Bytes → Login → Bool
is_match user host port database e =
    accepts e.user user && accepts e.host host && accepts e.port port && accepts e.database database

-- `lookup_password`
unfoldable pub lookup_password : List Login → Bytes → Bytes → Bytes → Bytes → Option Bytes
lookup_password [] user host port database = none
lookup_password (e ∷ es) user host port database =
    let rest = lookup_password es user host port database in
    if is_match user host port database e then some e.word else rest

-- The documentation of the password file: a field that is an asterisk is for every value, any other
-- one for the value that it is.
abbrev pub IsForValue : Bytes → Bytes → Type 0
IsForValue w value = (w ≡ 42 ∷ []) ⊎ (w ≡ value)

accepts-IsForValue : (w value : Bytes) → accepts w value ≡ true → IsForValue w value
unfolding accepts
accepts-IsForValue w value h = elim (Bool-cases (bytes_eq w (42 ∷ []))) [
  | inl star ↦ inl (bytes_eq→eq w (42 ∷ []) star)
  | inr plain ↦ inr (bytes_eq→eq w value (rw plain at h))
]

IsForValue-accepts : (w value : Bytes) → IsForValue w value → accepts w value ≡ true
unfolding accepts
IsForValue-accepts w value (inl star) = rw (star, bytes_eq_refl (42 ∷ [])) refl
IsForValue-accepts w value (inr same) = rw (same, bytes_eq_refl value) (or_true _)
  where
    or_true : (b : Bool) → (b || true) ≡ true
    or_true true = refl
    or_true false = refl

module _ (user host port database : Bytes) where
  -- The entry is for the connection: each of its four fields is for what is asked for.
  abbrev pub IsForConnection : Login → Type 0
  IsForConnection e =
      IsForValue e.user user
      × IsForValue e.host host
      × IsForValue e.port port
      × IsForValue e.database database

  both : (a b : Bool) → (a && b) ≡ true → (a ≡ true) × (b ≡ true)
  both true true h = (refl, refl)
  both true false h = absurd cc
  both false b h = absurd cc

  is_match-IsForConnection :
      (e : Login) → is_match user host port database e ≡ true → IsForConnection e
  unfolding is_match
  is_match-IsForConnection e h =
      let (h1, d) = both _ (accepts e.database database) h in
      let (h2, p) = both _ (accepts e.port port) h1 in
      let (u, a) = both (accepts e.user user) (accepts e.host host) h2 in
      (
        accepts-IsForValue e.user user u,
        accepts-IsForValue e.host host a,
        accepts-IsForValue e.port port p,
        accepts-IsForValue e.database database d,
      )

  IsForConnection-is_match :
      (e : Login) → IsForConnection e → is_match user host port database e ≡ true
  unfolding is_match
  IsForConnection-is_match e (u, h, p, d) =
      rw
        (
          IsForValue-accepts e.user user u,
          IsForValue-accepts e.host host h,
          IsForValue-accepts e.port port p,
          IsForValue-accepts e.database database d,
        )
        refl

  no_match : (e : Login) → is_match user host port database e ≡ false → ¬ IsForConnection e
  no_match e h = λ c. let hit = IsForConnection-is_match e c in absurd cc

  -- The word is that of an entry for the connection, and no entry before it is for it; without a
  -- word no entry is.
  abbrev pub IsFirst : List Login → Option Bytes → Type 0
  IsFirst es none = All (λ e. ¬ IsForConnection e) es
  IsFirst es (some w) =
      (before : List Login) × (e : Login) × (after : List Login) × (es ≡ before ++ e ∷ after)
      × All (λ f. ¬ IsForConnection f) before
      × IsForConnection e
      × (w ≡ e.word)

  IsFirst-later :
      (e : Login) (es : List Login) (w : Option Bytes)
      → ¬ IsForConnection e
      → IsFirst es w
      → IsFirst (e ∷ es) w
  IsFirst-later e es none h k = (h, k)
  IsFirst-later e es (some w) h (before, f, after, p, q, r, t) =
      (e ∷ before, f, after, rw p refl, (h, q), r, t)

  -- The password found is that of the first entry whose user, host, port and database are each an
  -- asterisk or what is asked for, and none is found only where there is no such entry.
  pub lookup_password-IsFirst :
      (es : List Login) → IsFirst es (lookup_password es user host port database)
  unfolding lookup_password
  lookup_password-IsFirst [] = tt
  lookup_password-IsFirst (e ∷ es) = elim (Bool-cases (is_match user host port database e)) [
    | inl hit ↦ rw hit ([], e, es, refl, tt, is_match-IsForConnection e hit, refl)
    | inr other ↦ rw other (IsFirst-later e es _ (no_match e other) (lookup_password-IsFirst es))
  ]
