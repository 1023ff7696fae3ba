-- ===== src/Version.antt =====
-- The class `Version` of protocol/version.py. The numbers are those that are not negative.
use pg_cluster.Base.{
  Bool-cases, Bytes, Outcome, [], arith, inl, inr, ltb, ltb→lt, ok, raise, refl, struct_error,
  value_error, ℕ, ◌%◌, ◌*◌, ◌++◌, ◌+◌, ◌/◌, ◌<◌, ◌>>=◌, ◌∙◌, ◌∷◌, ◌≡◌, ◌≤◌, ◌⊎◌,
}
use pg_cluster.Struct.{be2, ushort_pack}
use pg_cluster.Struct.RoundTrip.{ushort_pack-ok}

pub record ProtocolVersion : Type 0 where
  pub major : ℕ
  pub minor : ℕ

-- `version_struct.pack`
unfoldable pub pack_version : ℕ → ℕ → Outcome Bytes
pack_version major minor = do a ← ushort_pack major; b ← ushort_pack minor; ok (a ++ b)

unfoldable pub if_packed : Outcome Bytes → ProtocolVersion → Outcome ProtocolVersion
if_packed (ok w) v = ok v
if_packed (raise e) v = raise value_error

-- `Version((major, minor))`
unfoldable pub new_version : ℕ → ℕ → Outcome ProtocolVersion
new_version major minor =
    if_packed (pack_version major minor) (record { major = major; minor = minor })

-- `int(v)`: below 65536 `|` is the sum.
unfoldable pub version_int : ProtocolVersion → ℕ
version_int v = v.major * 65536 + v.minor

unfoldable pub version_bytes : ProtocolVersion → Outcome Bytes
version_bytes v = pack_version v.major v.minor

-- `Version.parse(data)`; `unpack` wants four bytes.
unfoldable pub parse_version : Bytes → Outcome ProtocolVersion
parse_version (a ∷ b ∷ c ∷ d ∷ []) = new_version (a * 256 + b) (c * 256 + d)
parse_version _ = raise struct_error

pack_version-ok : (a b : ℕ) → a < 65536 → b < 65536 → pack_version a b ≡ ok (be2 a ++ be2 b)
unfolding pack_version
pack_version-ok a b h k = rw (ushort_pack-ok a h, ushort_pack-ok b k) refl

new_version-ok :
    (a b : ℕ) → a < 65536 → b < 65536 → new_version a b ≡ ok (record { major = a; minor = b })
unfolding new_version
new_version-ok a b h k = rw (pack_version-ok a b h k) (unfold if_packed in refl)

parse_version-be2 : (a b : ℕ) → parse_version (be2 a ++ be2 b) ≡ new_version a b
unfolding parse_version be2
parse_version-be2 a b =
    let x : a / 256 * 256 + a % 256 ≡ a = omega arith in
    let y : b / 256 * 256 + b % 256 ≡ b = omega arith in rw (x, y) refl

-- A version is refused with a ValueError where one of its numbers is 2 ^ 16 or more; or else its
-- bytes are parsed to it, and its integer has the two numbers as its halves.
pub parse_version-version_bytes :
    (a b : ℕ)
    → ((new_version a b ≡ raise value_error) × ((65536 ≤ a) ⊎ (65536 ≤ b)))
      ⊎ ((v : ProtocolVersion) × (w : Bytes) × (new_version a b ≡ ok v)
          × (version_bytes v ≡ ok w)
          × (parse_version w ≡ ok v)
          × (version_int v / 65536 ≡ a)
          × (version_int v % 65536 ≡ b))
parse_version-version_bytes a b = elim (Bool-cases (ltb a 65536)) [
  | inl h ↦ elim (Bool-cases (ltb b 65536)) [
    | inl k ↦
        let small = ltb→lt a 65536 h in
        let little = ltb→lt b 65536 k in
        inr (
          record { major = a; minor = b },
          be2 a ++ be2 b,
          new_version-ok a b small little,
          (unfold version_bytes in pack_version-ok a b small little),
          parse_version-be2 a b ∙ new_version-ok a b small little,
          (unfold version_int in omega arith),
          (unfold version_int in omega arith),
        )
    | inr k ↦ inl (
      (unfold new_version pack_version ushort_pack if_packed in rw (h, k) refl),
      inr (ground arith),
    )
  ]
  | inr h ↦
      inl ((unfold new_version pack_version ushort_pack if_packed in rw h refl), inl (ground arith))
]
