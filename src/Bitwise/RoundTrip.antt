-- ===== src/Bitwise/RoundTrip.antt =====
-- Bit strings (types/bitwise.py) are written as they were read.
use pg_cluster.Base.{
  ==-ne, Bool, Bytes, [], ap, append-nil, arith, false, length, ok, refl, suc, true, ℕ, ◌%◌, ◌*◌,
  ◌++◌, ◌+◌, ◌/◌, ◌==◌, ◌∙◌, ◌∷◌, ◌≡◌, ◌≢◌,
}
use pg_cluster.Bitwise.{
  Bits, Varbit, bit_value, digits, first_bit, from_bits, int_of, is_one, join_blocks, last_width,
  octet_bits, one_bit, pack_bits, text_of, varbit, zero_bit,
}

last_digit :
    (m acc : ℕ) (c : Bool) (bs : Bits)
    → digits (suc m) (acc * 2 + bit_value c) bs ≡ digits m acc (c ∷ bs)
unfolding digits bit_value
last_digit m acc true bs =
    let half : (acc * 2 + 1) / 2 ≡ acc = omega arith in
    let odd : (acc * 2 + 1) % 2 ≡ 1 = omega arith in rw (half, odd) refl
last_digit m acc false bs =
    let half : (acc * 2 + 0) / 2 ≡ acc = omega arith in
    let even : (acc * 2 + 0) % 2 ≡ 0 = omega arith in rw (half, even) refl

digits-int_of :
    (bs : Bits) (m n acc : ℕ) (tail : Bits)
    → n ≡ m + length bs
    → digits n (int_of acc bs) tail ≡ digits m acc (bs ++ tail)
unfolding int_of
digits-int_of [] m n acc tail e = let same : n ≡ m = omega arith in rw same refl
digits-int_of (b ∷ bs) m n acc tail e =
    digits-int_of bs (suc m) n (acc * 2 + bit_value b) tail (omega arith)
    ∙ last_digit m acc b (bs ++ tail)

octet_bits-int_of : (bs : Bits) → length bs ≡ 8 → octet_bits (int_of 0 bs) ≡ bs
unfolding octet_bits
octet_bits-int_of bs e = digits-int_of bs 0 8 0 [] (omega arith) ∙ (unfold digits in append-nil bs)

last_width_more : (n : ℕ) → last_width (8 + n) ≡ last_width n
unfolding last_width
last_width_more n = let same : (8 + n) % 8 ≡ n % 8 = omega arith in rw same refl

join_blocks_more :
    (k x : ℕ) (xs : Bytes) → xs ≢ [] → join_blocks k (x ∷ xs) ≡ octet_bits x ++ join_blocks k xs
unfolding join_blocks
join_blocks_more k x [] h = absurd (h refl)
join_blocks_more k x (y ∷ ys) h = refl

pack_bits_some : (b : Bool) (bs : Bits) → pack_bits (b ∷ bs) ≢ []
unfolding pack_bits
pack_bits_some a [] e = cc
pack_bits_some a (b ∷ []) e = cc
pack_bits_some a (b ∷ c ∷ []) e = cc
pack_bits_some a (b ∷ c ∷ d ∷ []) e = cc
pack_bits_some a (b ∷ c ∷ d ∷ v ∷ []) e = cc
pack_bits_some a (b ∷ c ∷ d ∷ v ∷ f ∷ []) e = cc
pack_bits_some a (b ∷ c ∷ d ∷ v ∷ f ∷ g ∷ []) e = cc
pack_bits_some a (b ∷ c ∷ d ∷ e' ∷ f ∷ g ∷ h ∷ bs) z = cc

join_blocks-pack_bits :
    (text : Bits) → join_blocks (last_width (length text)) (pack_bits text) ≡ text
unfolding join_blocks pack_bits
join_blocks-pack_bits [] = refl
join_blocks-pack_bits (a ∷ []) =
    rw (octet_bits-int_of (a ∷ false ∷ false ∷ false ∷ false ∷ false ∷ false ∷ false ∷ []) refl)
      (unfold last_width in refl)
join_blocks-pack_bits (a ∷ b ∷ []) =
    rw (octet_bits-int_of (a ∷ b ∷ false ∷ false ∷ false ∷ false ∷ false ∷ false ∷ []) refl)
      (unfold last_width in refl)
join_blocks-pack_bits (a ∷ b ∷ c ∷ []) =
    rw (octet_bits-int_of (a ∷ b ∷ c ∷ false ∷ false ∷ false ∷ false ∷ false ∷ []) refl)
      (unfold last_width in refl)
join_blocks-pack_bits (a ∷ b ∷ c ∷ d ∷ []) =
    rw (octet_bits-int_of (a ∷ b ∷ c ∷ d ∷ false ∷ false ∷ false ∷ false ∷ []) refl)
      (unfold last_width in refl)
join_blocks-pack_bits (a ∷ b ∷ c ∷ d ∷ e ∷ []) =
    rw (octet_bits-int_of (a ∷ b ∷ c ∷ d ∷ e ∷ false ∷ false ∷ false ∷ []) refl)
      (unfold last_width in refl)
join_blocks-pack_bits (a ∷ b ∷ c ∷ d ∷ e ∷ f ∷ []) =
    rw (octet_bits-int_of (a ∷ b ∷ c ∷ d ∷ e ∷ f ∷ false ∷ false ∷ []) refl)
      (unfold last_width in refl)
join_blocks-pack_bits (a ∷ b ∷ c ∷ d ∷ e ∷ f ∷ g ∷ []) =
    rw (octet_bits-int_of (a ∷ b ∷ c ∷ d ∷ e ∷ f ∷ g ∷ false ∷ []) refl) (unfold last_width in refl)
join_blocks-pack_bits (a ∷ b ∷ c ∷ d ∷ e ∷ f ∷ g ∷ h ∷ []) =
    rw (octet_bits-int_of (a ∷ b ∷ c ∷ d ∷ e ∷ f ∷ g ∷ h ∷ []) refl) (unfold last_width in refl)
join_blocks-pack_bits (a ∷ b ∷ c ∷ d ∷ e ∷ f ∷ g ∷ h ∷ i ∷ bs) =
    let rest = join_blocks-pack_bits (i ∷ bs) in
    let front = a ∷ b ∷ c ∷ d ∷ e ∷ f ∷ g ∷ h ∷ [] in
    let n = length (i ∷ bs) in
    let size : length (front ++ i ∷ bs) ≡ 8 + n = omega arith in
    let width : last_width (length (front ++ i ∷ bs)) ≡ last_width n =
      ap (λ (k : ℕ). last_width k) size ∙ last_width_more n in
    join_blocks_more _ (int_of 0 front) (pack_bits (i ∷ bs)) (pack_bits_some i bs)
    ∙ ap
        (λ (v : Bits).
          v ++ join_blocks (last_width (length (front ++ i ∷ bs))) (pack_bits (i ∷ bs)))
        (octet_bits-int_of front refl)
    ∙ ap (λ (k : ℕ). front ++ join_blocks k (pack_bits (i ∷ bs))) width
    ∙ ap (λ (v : Bits). front ++ v) rest

-- Every text of zeros and ones makes a bit string without an exception, whatever its length, and
-- `str` of it is the text.
pub text_of-varbit : (text : Bits) → (v : Varbit) × (varbit text ≡ ok v) × (text_of v ≡ text)
unfolding varbit from_bits text_of pack_bits first_bit int_of bit_value is_one
text_of-varbit [] = (record { bits = 0; octets = [] }, refl, refl)
text_of-varbit (true ∷ []) = (one_bit, refl, refl)
text_of-varbit (false ∷ []) = (zero_bit, refl, refl)
text_of-varbit (a ∷ b ∷ bs) =
    let text = a ∷ b ∷ bs in
    let many : (length text == 1) ≡ false = ==-ne (length text) 1 (λ e. omega arith) in
    let some_bits : (length text == 0) ≡ false = ==-ne (length text) 0 (λ e. omega arith) in
    (
      record { bits = length text; octets = pack_bits text },
      rw many refl,
      rw (many, some_bits) (join_blocks-pack_bits text),
    )
