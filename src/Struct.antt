-- ===== src/Struct.antt =====
-- tools/pg_cluster_backend/psc/postgresql/python/structlib.py: fixed-width integers in network
-- order (the pairs that the module makes with Python's `struct`), and `split_sized_data`.
-- A packer raises `struct_error` on a value out of range, an unpacker on too few bytes.
pub mod RoundTrip
pub mod Sized
use pg_cluster.Base.{
  Bytes, Exception, Option, Outcome, [], drop, if◌then◌else◌, length, ltb, none, ok, raise, some,
  struct_error, suc, take, value_error, zero, ℕ, ◌%◌, ◌*◌, ◌+◌, ◌-◌, ◌/◌, ◌==◌, ◌>>=◌, ◌∷◌,
}
use pg_cluster.Base.Int.{negsuc, pos, ℤ}

-- Two and four bytes, the most significant first.
unfoldable pub be2 : ℕ → Bytes
be2 x = x / 256 ∷ x % 256 ∷ []

unfoldable pub be4 : ℕ → Bytes
be4 x = x / 16777216 ∷ x / 65536 % 256 ∷ x / 256 % 256 ∷ x % 256 ∷ []

-- `!H`
unfoldable pub ushort_pack : ℕ → Outcome Bytes
ushort_pack x = if ltb x 65536 then ok (be2 x) else raise struct_error

unfoldable pub ushort_unpack : Bytes → Outcome ℕ
ushort_unpack (a ∷ b ∷ rest) = ok (a * 256 + b)
ushort_unpack _ = raise struct_error

-- `!L`
unfoldable pub ulong_pack : ℕ → Outcome Bytes
ulong_pack x = if ltb x 4294967296 then ok (be4 x) else raise struct_error

unfoldable pub ulong_unpack : Bytes → Outcome ℕ
ulong_unpack (a ∷ b ∷ c ∷ d ∷ rest) = ok (a * 16777216 + b * 65536 + c * 256 + d)
ulong_unpack _ = raise struct_error

-- Two's complement at a modulus: the pattern of an integer in range, and back.
unfoldable pub signed_pattern : ℕ → ℤ → Outcome ℕ
signed_pattern half (pos n) = if ltb n half then ok n else raise struct_error
signed_pattern half (negsuc n) =
    if ltb n half then ok (half + half - (n + 1)) else raise struct_error

unfoldable pub pattern_signed : ℕ → ℕ → ℤ
pattern_signed half u = if ltb u half then pos u else negsuc (half + half - (u + 1))

-- `!h`
unfoldable pub short_pack : ℤ → Outcome Bytes
short_pack x = do u ← signed_pattern 32768 x; ushort_pack u

unfoldable pub short_unpack : Bytes → Outcome ℤ
short_unpack v = do u ← ushort_unpack v; ok (pattern_signed 32768 u)

-- `!l`
unfoldable pub long_pack : ℤ → Outcome Bytes
long_pack x = do u ← signed_pattern 2147483648 x; ulong_pack u

unfoldable pub long_unpack : Bytes → Outcome ℤ
long_unpack v = do u ← ulong_unpack v; ok (pattern_signed 2147483648 u)

-- A generator as the values that it yields, and how it ends. `stuck` is no end of the program:
-- the loop of the model ran out of fuel.
pub data Generator {ℓ} (A : Type ℓ) : Type ℓ where
  finished : Generator A
  raises : Exception → Generator A
  stuck : Generator A
  yields : A → Generator A → Generator A

-- What one round does with `l` and with the bytes behind the size.
unfoldable pub sized_field :
    (Bytes → Generator (Option Bytes)) → ℕ → Bytes → Generator (Option Bytes)
sized_field go l rest =
    if l == 4294967295
    then yields none (go rest)
    else if ltb (length (take l rest)) l
    then raises value_error
    else yields (some (take l rest)) (go (drop l rest))

-- One round, after the size was read.
unfoldable pub sized_round :
    (Bytes → Generator (Option Bytes)) → Outcome ℕ → Bytes → Generator (Option Bytes)
sized_round go (raise e) rest = raises e
sized_round go (ok l) rest = sized_field go l rest

-- `while v:` of `split_sized_data`
unfoldable pub split_sized_loop : ℕ → Bytes → Generator (Option Bytes)
split_sized_loop fuel [] = finished
split_sized_loop zero (b ∷ v) = stuck
split_sized_loop (suc fuel) (b ∷ v) =
    sized_round (λ w. split_sized_loop fuel w) (ulong_unpack (b ∷ v)) (drop 4 (b ∷ v))

-- Each round takes four bytes at least, so as many rounds as bytes are enough.
unfoldable pub split_sized_data : Bytes → Generator (Option Bytes)
split_sized_data v = split_sized_loop (length v) v
