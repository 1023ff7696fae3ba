-- ===== src/Copyman/Aligned.antt =====
-- `realign` (copyman.py) puts both sides on a boundary.
use mathlib.Core.Path.{subst}
use pg_cluster.Base.{
  Bool, Bool-cases, Bytes, Outcome, [], ap, append-nil, append_assoc, arith, drop-append, false,
  inl, inr, length, length-append, ltb, ok, refl, replicate, suc, sym, zero, ℕ, ◌++◌, ◌+◌, ◌-◌, ◌<◌,
  ◌==◌, ◌∙◌, ◌∷◌, ◌≡◌, ◌≢◌, ◌≤◌,
}
use pg_cluster.Buffer.Observe.{drop_long}
use pg_cluster.Copyman.Header.{follow-header_cut, header_run, join_header_whole, size_run}
use pg_cluster.Copyman.Position.{
  IsOpen, Position, after_size, between, follow, follow-body, in_body, in_header, malformed,
  stopped,
}
use pg_cluster.Copyman.Realign.{ljust3, pad_header, realign, realign_body, realign_open}
use pg_cluster.Copyman.Tracking.{state_at}
use pg_cluster.Copyman.Wire.{getlen, new_wire}
use pg_cluster.Struct.{be4, ulong_unpack}
use pg_cluster.Struct.RoundTrip.{ulong_pack-ok, ulong_unpack-be4}

-- The rest of a body is small enough for a size.
abbrev pub Fits : Position → Type 0
Fits (in_body m) = m + 5 < 4294967296
Fits p = Unit

-- What the two sides are given
abbrev pub IsRealigned : (ℕ → Bool) → Position → Outcome (Bytes × Bytes) → Type 0
IsRealigned condition p r =
    (back : Bytes) × (front : Bytes) × (r ≡ ok (back, front))
    × (follow condition 0 between back ≡ (0, p))
    × ((follow condition 0 p front).1 ≡ between)

zeros_length : (n : ℕ) → length (replicate {A = ℕ} n 0) ≡ n
zeros_length zero = refl
zeros_length (suc n) = ap (λ (k : ℕ). suc k) (zeros_length n)

-- A padded size has 4 as its last byte.
padded_size : (f : Bytes) → length f < 4 → 4 ≤ getlen (ljust3 f ++ 4 ∷ [])
unfolding getlen ulong_unpack ljust3
padded_size [] l = omega arith
padded_size (a ∷ []) l = omega arith
padded_size (a ∷ b ∷ []) l = omega arith
padded_size (a ∷ b ∷ c ∷ []) l = omega arith
padded_size (a ∷ b ∷ c ∷ d ∷ f) l = absurd (omega arith)

getlen-be4 : (x : ℕ) → getlen (be4 x) ≡ x
unfolding getlen
getlen-be4 x =
    let whole : ulong_unpack (be4 x) ≡ ok x =
      ap (λ v. ulong_unpack v) (sym (append-nil (be4 x))) ∙ ulong_unpack-be4 x [] in
    rw (whole, getlen) refl

module _ (condition : ℕ → Bool) where
  body_zeros : (n m : ℕ) → (follow condition n (in_body m) (replicate (suc m) 0)).1 ≡ between
  body_zeros n m =
      let long = zeros_length (suc m) in
      let zeros = replicate {A = ℕ} (suc m) 0 in
      rw
        (
          follow-body condition m n zeros (omega (arith, long)),
          drop_long (suc m) zeros (omega (arith, long)),
        )
        (unfold follow in refl)

  size_run-zeros : (s : ℕ) → 4 ≤ s → (size_run condition 0 s (replicate (s - 4) 0)).1 ≡ between
  unfolding size_run after_size
  size_run-zeros s h = elim (Bool-cases (s == 4)) [
    | inl four ↦ let e : s ≡ 4 = ground arith in rw e (unfold follow in refl)
    | inr more ↦
        let large : ltb s 4 ≡ false = ground arith in
        let rest : s - 4 ≡ suc (s - 5) = ground arith in
        rw (large, more, rest) (body_zeros 0 (s - 5))
  ]

  pad_header-between :
      (f : Bytes) → length f < 4 → (follow condition 0 (in_header f) (pad_header f)).1 ≡ between
  unfolding pad_header ljust3
  pad_header-between f l =
      let zeros = replicate {A = ℕ} (3 - length f) 0 in
      let back = zeros ++ 4 ∷ [] in
      let n = length f in
      let joined : f ++ zeros ++ 4 ∷ [] ≡ f ++ back = append_assoc f zeros (4 ∷ []) in
      let size = getlen (f ++ back) in
      let enough : 4 ≤ size = subst (λ v. 4 ≤ getlen v) joined (unfold ljust3 in padded_size f l) in
      let four : length f + length back ≡ 4 =
        omega (arith, length-append zeros (4 ∷ []), zeros_length (3 - n)) in
      rw (joined, drop-append f back)
        (ap (λ (x : ℕ × Position). x.1)
            (join_header_whole condition f back (replicate (size - 4) 0) (not_empty zeros) four)
          ∙ size_run-zeros size enough)
    where
      not_empty : (v : Bytes) → v ++ 4 ∷ [] ≢ []
      not_empty [] e = cc
      not_empty (x ∷ v) e = cc

  large_size : (m : ℕ) → size_run condition 0 (suc m + 4) [] ≡ (0, in_body m)
  unfolding size_run after_size follow
  large_size m =
      let large : ltb (suc m + 4) 4 ≡ false = ground arith in
      let other : (suc m + 4 == 4) ≡ false = ground arith in
      let rest : suc m + 4 - 5 ≡ m = omega arith in rw (large, other, rest) refl

  whole_size :
      (m : ℕ)
      → condition b'd' ≡ false
      → follow condition 0 between (b'd' ∷ be4 (suc m + 4)) ≡ (0, in_body m)
  unfolding be4
  whole_size m e =
      let size : getlen (be4 (suc m + 4)) ≡ suc m + 4 = getlen-be4 (suc m + 4) in
      four_bytes ∙ ap (λ (s : ℕ). size_run condition 0 s []) size ∙ large_size m
    where
      four_bytes :
          follow condition 0 between (b'd' ∷ be4 (suc m + 4))
          ≡ size_run condition 0 (getlen (be4 (suc m + 4))) []
      four_bytes = header_run condition 0 b'd' _ _ _ _ [] e

  -- From any open position: what the producer's connection is given is read to the same position,
  -- so that the rest of the stream is read as it would have been; and what the receivers are given
  -- ends at the end of a message. The type of COPY data does not end the stream, and a rest of a
  -- body fits the field of a size.
  pub realign_lem :
      (p : Position)
      → condition b'd' ≡ false
      → IsOpen p
      → Fits p
      → IsRealigned condition p (realign (state_at p))
  unfolding realign realign_open realign_body state_at new_wire
  realign_lem between e o h = ([], [], refl, (unfold follow in refl), (unfold follow in refl))
  realign_lem (in_header f) e o h = (
    b'd' ∷ f,
    pad_header f,
    refl,
    follow-header_cut condition 0 b'd' f e (omega arith),
    pad_header-between f o,
  )
  realign_lem (in_body m) e o h = (
    b'd' ∷ be4 (suc m + 4),
    replicate (suc m) 0,
    rw (ulong_pack-ok (suc m + 4) (omega arith)) refl,
    whole_size m e,
    body_zeros 0 m,
  )
  realign_lem (stopped v) e o h = absurd o
  realign_lem malformed e o h = absurd o
