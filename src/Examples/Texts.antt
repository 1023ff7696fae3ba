-- ===== src/Examples/Texts.antt =====
-- The text conversions, and the theorems about them at concrete texts.
use pg_cluster.Base.{
  Bool, Bytes, List, [], arith, false, ok, raise, refl, split, true, type_error, ℕ, ◌∷◌, ◌≡◌,
}
use pg_cluster.Bitwise.{Varbit, bit_value, getbit, int_of, pack_bits, text_of, varbit}
use pg_cluster.Bitwise.RoundTrip.{text_of-varbit}
use pg_cluster.Passfile.{
  IsFirst, Login, entry_of, fields_of, lookup_password, lookup_password-IsFirst, parse_entry,
  parse_lines, split_line, trailing, unescape,
}
use pg_cluster.Text.Bytea.{decode, encode, encode-decode}
use pg_cluster.Text.Quoting.{halve, quote_ident, read_ident, read_ident-quote_ident}

encode-decode_example : encode (decode (92 ∷ 65 ∷ 200 ∷ [])) ≡ ok (92 ∷ 65 ∷ 200 ∷ [])
encode-decode_example =
    encode-decode (92 ∷ 65 ∷ 200 ∷ []) ((omega arith), ((omega arith), ((omega arith), tt)))

abbrev same_letter : ℕ → ℕ
same_letter c = c

read_ident-quote_ident_example :
    read_ident same_letter (quote_ident (97 ∷ 34 ∷ 98 ∷ [])) ≡ ok (97 ∷ 34 ∷ 98 ∷ [])
read_ident-quote_ident_example = read_ident-quote_ident same_letter (97 ∷ 34 ∷ 98 ∷ [])

-- `*:*:*:u:w`
abbrev any_host : Bytes
any_host = 42 ∷ 58 ∷ 42 ∷ 58 ∷ 42 ∷ 58 ∷ b'u' ∷ 58 ∷ b'w' ∷ []

abbrev entries : List Login
entries =
    record {
      word = b'w' ∷ [];
      host = 42 ∷ [];
      port = 42 ∷ [];
      database = 42 ∷ [];
      user = b'u' ∷ [];
    }
    ∷ []

any_host_parsed : parse_lines (any_host ∷ []) ≡ entries
unfolding parse_lines parse_entry split_line split fields_of trailing unescape halve entry_of
any_host_parsed = refl

lookup_password-IsFirst_example :
    IsFirst
      (b'u' ∷ [])
      (b'h' ∷ [])
      (b'5' ∷ [])
      (b'd' ∷ [])
      entries
      (lookup_password entries (b'u' ∷ []) (b'h' ∷ []) (b'5' ∷ []) (b'd' ∷ []))
lookup_password-IsFirst_example =
    lookup_password-IsFirst (b'u' ∷ []) (b'h' ∷ []) (b'5' ∷ []) (b'd' ∷ []) entries

abbrev ten_bits : List Bool
ten_bits = true ∷ false ∷ true ∷ true ∷ false ∷ false ∷ false ∷ true ∷ false ∷ true ∷ []

text_of-varbit_example : (v : Varbit) × (varbit ten_bits ≡ ok v) × (text_of v ≡ ten_bits)
text_of-varbit_example = text_of-varbit ten_bits

ten_bits_packed : pack_bits ten_bits ≡ 177 ∷ 64 ∷ []
unfolding pack_bits int_of bit_value
ten_bits_packed = refl

-- The first bit of a bit string cannot be read.
getbit_raises : getbit (record { bits = 10; octets = 177 ∷ 64 ∷ [] }) 0 ≡ raise type_error
unfolding getbit
getbit_raises = refl
