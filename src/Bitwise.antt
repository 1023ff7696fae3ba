-- ===== src/Bitwise.antt =====
-- types/bitwise.py: `Varbit` made from a text and back. A text of `0` and `1` is a list of truth
-- values; what `int` makes of other texts is left out.
pub mod RoundTrip
use pg_cluster.Base.{
  Bool, Bytes, List, Outcome, [], false, if◌then◌else◌, index_error, length, ltb, ok, raise, suc,
  take, true, type_error, zero, ℕ, ◌%◌, ◌*◌, ◌++◌, ◌+◌, ◌/◌, ◌==◌, ◌>>=◌, ◌∷◌,
}

abbrev pub Bits : Type 0
Bits = List Bool

pub record Varbit : Type 0 where
  pub bits : ℕ
  pub octets : Bytes

-- `OneBit` and `ZeroBit`
abbrev pub one_bit : Varbit
one_bit = record { bits = 1; octets = 128 ∷ [] }

abbrev pub zero_bit : Varbit
zero_bit = record { bits = 1; octets = 0 ∷ [] }

unfoldable pub bit_value : Bool → ℕ
bit_value true = 1
bit_value false = 0

-- `int(x, 2)`, digit by digit
unfoldable pub int_of : ℕ → Bits → ℕ
int_of acc [] = acc
int_of acc (b ∷ bs) = int_of (acc * 2 + bit_value b) bs

-- The octets of a text: eight digits each, the last ones with zeros behind them (`ljust(8, '0')`)
unfoldable pub pack_bits : Bits → Bytes
pack_bits [] = []
pack_bits (a ∷ b ∷ c ∷ d ∷ e ∷ f ∷ g ∷ h ∷ bs) =
    int_of 0 (a ∷ b ∷ c ∷ d ∷ e ∷ f ∷ g ∷ h ∷ []) ∷ pack_bits bs
pack_bits bs =
    int_of 0 (take 8 (bs ++ false ∷ false ∷ false ∷ false ∷ false ∷ false ∷ false ∷ false ∷ []))
    ∷ []

-- `data[0] & (1 << 7)`; without data it is an IndexError.
unfoldable pub first_bit : Bytes → Outcome Bool
first_bit [] = raise index_error
first_bit (x ∷ xs) = ok (x / 128 % 2 == 1)

-- `from_bits`
unfoldable pub from_bits : ℕ → Bytes → Outcome Varbit
from_bits n octets =
    if n == 1
    then first_bit octets >>= (λ b. ok (if b then one_bit else zero_bit))
    else ok (record { bits = n; octets = octets })

-- `Varbit(text)`
unfoldable pub varbit : Bits → Outcome Varbit
varbit text = from_bits (length text) (pack_bits text)

-- The digits of a number, so many, in front of others: `bin(x)[2:].rjust(8, '0')`
unfoldable pub digits : ℕ → ℕ → Bits → Bits
digits zero x behind = behind
digits (suc n) x behind = digits n (x / 2) ((x % 2 == 1) ∷ behind)

unfoldable pub octet_bits : ℕ → Bits
octet_bits x = digits 8 x []

-- The blocks, of which the last one is cut
unfoldable pub join_blocks : ℕ → Bytes → Bits
join_blocks k [] = []
join_blocks k (x ∷ []) = take k (octet_bits x)
join_blocks k (x ∷ y ∷ ys) = octet_bits x ++ join_blocks k (y ∷ ys)

-- `(self.bits % 8) or 8`
unfoldable pub last_width : ℕ → ℕ
last_width n = if n % 8 == 0 then 8 else n % 8

unfoldable pub is_one : Bytes → Bool
is_one [] = false
is_one (x ∷ xs) = x == 128

-- `str(v)`: of a single bit it is the method of `Bit`.
unfoldable pub text_of : Varbit → Bits
text_of v =
    if v.bits == 1
    then is_one v.octets ∷ []
    else if v.bits == 0
    then []
    else join_blocks (last_width v.bits) v.octets

-- `u + v`
unfoldable pub add : Varbit → Varbit → Outcome Varbit
add u v = varbit (text_of u ++ text_of v)

-- `getbit(i)` of an index that is not negative: `ord` is called on a number.
unfoldable pub getbit : Varbit → ℕ → Outcome Varbit
getbit v i = if ltb i v.bits then raise type_error else raise index_error
