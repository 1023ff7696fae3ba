-- ===== src/Struct/RoundTrip.antt =====
-- The integers that are packed are the integers that are unpacked.
use pg_cluster.Base.{
  All, Bytes, IsByte, ap, arith, length, lt→ltb, ok, refl, ℕ, ◌%◌, ◌*◌, ◌++◌, ◌+◌, ◌-◌, ◌/◌, ◌<◌,
  ◌≡◌,
}
use pg_cluster.Base.Int.{negsuc, pos, ℤ}
use pg_cluster.Struct.{
  be2, be4, long_pack, long_unpack, pattern_signed, short_pack, short_unpack, signed_pattern,
  ulong_pack, ulong_unpack, ushort_pack, ushort_unpack,
}

pub ushort_pack-ok : (x : ℕ) → x < 65536 → ushort_pack x ≡ ok (be2 x)
unfolding ushort_pack
ushort_pack-ok x h = rw (lt→ltb x 65536 h)

pub ulong_pack-ok : (x : ℕ) → x < 4294967296 → ulong_pack x ≡ ok (be4 x)
unfolding ulong_pack
ulong_pack-ok x h = rw (lt→ltb x 4294967296 h)

be2_value : (x : ℕ) → x / 256 * 256 + x % 256 ≡ x
be2_value x = omega arith

pub be4_value :
    (x : ℕ) → x / 16777216 * 16777216 + x / 65536 % 256 * 65536 + x / 256 % 256 * 256 + x % 256 ≡ x
be4_value x = omega arith

pub ushort_unpack-be2 : (x : ℕ) (rest : Bytes) → ushort_unpack (be2 x ++ rest) ≡ ok x
unfolding ushort_unpack be2
ushort_unpack-be2 x rest = ap ok (be2_value x)

pub ulong_unpack-be4 : (x : ℕ) (rest : Bytes) → ulong_unpack (be4 x ++ rest) ≡ ok x
unfolding ulong_unpack be4
ulong_unpack-be4 x rest = ap ok (be4_value x)

-- The bytes written are bytes.
pub be2-IsByte : (x : ℕ) → x < 65536 → All IsByte (be2 x)
unfolding be2
be2-IsByte x h = omega arith

pub be4-IsByte : (x : ℕ) → x < 4294967296 → All IsByte (be4 x)
unfolding be4
be4-IsByte x h = omega arith

-- An integer that `half` bounds on both sides, as two's complement does.
abbrev pub IsSigned : ℕ → ℤ → Type 0
IsSigned half (pos n) = n < half
IsSigned half (negsuc n) = n < half

pub signed_pattern_lem :
    (half : ℕ) (x : ℤ)
    → IsSigned half x
    → (u : ℕ) × (signed_pattern half x ≡ ok u) × (u < half + half) × (pattern_signed half u ≡ x)
unfolding signed_pattern pattern_signed
signed_pattern_lem half (pos n) h = (n, ground arith, omega arith, ground arith)
signed_pattern_lem half (negsuc n) h =
    (half + half - (n + 1), ground arith, omega arith, ground arith)

-- What `short_pack` and `long_pack` write is read back by `short_unpack` and `long_unpack`,
-- whatever bytes follow.
pub short_pack_lem :
    (x : ℤ)
    → IsSigned 32768 x
    → (b : Bytes) × (short_pack x ≡ ok b)
      × (length b ≡ 2)
      × ((rest : Bytes) → short_unpack (b ++ rest) ≡ ok x)
unfolding short_pack short_unpack
short_pack_lem x h =
    let (u, packed, small, back) = signed_pattern_lem 32768 x h in
    (
      be2 u,
      rw (packed, ushort_pack-ok u (omega arith)),
      unfold be2 in refl,
      λ rest. rw (ushort_unpack-be2 u rest, back),
    )

pub long_pack_lem :
    (x : ℤ)
    → IsSigned 2147483648 x
    → (b : Bytes) × (long_pack x ≡ ok b)
      × (length b ≡ 4)
      × ((rest : Bytes) → long_unpack (b ++ rest) ≡ ok x)
unfolding long_pack long_unpack
long_pack_lem x h =
    let (u, packed, small, back) = signed_pattern_lem 2147483648 x h in
    (
      be4 u,
      rw (packed, ulong_pack-ok u (omega arith)),
      unfold be4 in refl,
      λ rest. rw (ulong_unpack-be4 u rest, back),
    )
