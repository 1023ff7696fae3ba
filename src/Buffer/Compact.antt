-- ===== src/Buffer/Compact.antt =====
-- `_rtruncate` of protocol/pbuffer.py removes exactly the given amount from the front.
use pg_cluster.Base.{
  ==_iff, Bool-cases, Bytes, [], ap, append_assoc, arith, drop, drop-drop, drop-length, drop-skip,
  false, if◌then◌else◌, inl, inr, length, length-append, length-drop, length-take_le,
  length-take_le_length, refl, replicate, suc, sym, take, take-append, take-append-drop,
  take-append_at, take-short, zero, ℕ, ◌++◌, ◌+◌, ◌-◌, ◌<◌, ◌==◌, ◌∙◌, ◌∷◌, ◌≡◌, ◌≤◌,
}
use pg_cluster.Buffer.File.{File, read_bytes, seek, seek_end, truncate_file, write_bytes}
use pg_cluster.Buffer.Stream.{block, compact_loop, rtruncate}

no_gap : (front rest : Bytes) → replicate {A = ℕ} (length front - length (front ++ rest)) 0 ≡ []
no_gap front rest =
    let e : length front - length (front ++ rest) ≡ 0 = omega (arith, length-append front rest) in
    rw e

-- Writing over what stands at the position.
pub write_over :
    (front v rest : Bytes)
    → length v ≤ length rest
    → write_bytes v (record { bytes = front ++ rest; pos = length front })
      ≡ record { bytes = front ++ (v ++ drop (length v) rest); pos = length front + length v }
unfolding write_bytes
write_over front [] rest h = ap (λ (n : ℕ). record { bytes = front ++ rest; pos = n }) (omega arith)
write_over front (b ∷ v) rest h = rw (
  take-append front rest,
  no_gap front rest,
  drop-skip (length front + suc (length v)) (suc (length v)) front rest refl,
)

-- What a round reads: the next block of what is to be kept.
abbrev chunk : ℕ → Bytes → Bytes
chunk amt rest = take block (drop amt rest)

length-chunk :
    (amt : ℕ) (rest : Bytes) → amt ≤ length rest → length (chunk amt rest) + amt ≤ length rest
length-chunk amt rest h =
    omega (arith, length-take_le_length block (drop amt rest), length-drop amt rest)

-- One round, as an equation.
compact_round :
    (fuel amt p : ℕ) (front rest : Bytes)
    → amt ≤ length rest
    → let v = chunk amt rest in
      let h : File = record {
        bytes = front ++ (v ++ drop (length v) rest);
        pos = length front + length v;
      } in
      compact_loop
        (suc fuel)
        (length front)
        (length front + amt)
        (record { bytes = front ++ rest; pos = p })
      ≡ (if length v == block
          then compact_loop fuel (length front + length v) (length front + amt + length v) h
          else h)
unfolding compact_loop read_bytes seek
compact_round fuel amt p front rest h = rw (
  drop-skip (length front + amt) amt front rest refl,
  write_over front (chunk amt rest) rest (omega (arith, length-chunk amt rest h)),
)

-- What is kept is a full block and the rest of it, or one short block.
kept_full :
    (b amt : ℕ) (rest : Bytes)
    → length (take b (drop amt rest)) ≡ b
    → take b (drop amt rest) ++ drop amt (drop (length (take b (drop amt rest))) rest)
      ≡ drop amt rest
kept_full b amt rest full =
    rw (full, drop-drop amt b (b + amt) rest refl, ← drop-drop b amt (b + amt) rest (omega arith))
      (take-append-drop b (drop amt rest))

lt_of_ne : (n b : ℕ) → n ≤ b → (n == b) ≡ false → n < b
lt_of_ne n b h e = ground arith

kept_short :
    (b amt : ℕ) (rest : Bytes)
    → (length (take b (drop amt rest)) == b) ≡ false
    → take b (drop amt rest) ≡ drop amt rest
kept_short b amt rest short =
    take-short b (drop amt rest) (lt_of_ne _ b (length-take_le b (drop amt rest)) short)

compact_loop_lem :
    (fuel amt p to from n : ℕ) (front rest : Bytes)
    → amt ≤ length rest
    → length rest < fuel
    → to ≡ length front
    → from ≡ length front + amt
    → n ≡ length front + (length rest - amt)
    → take n (compact_loop fuel to from (record { bytes = front ++ rest; pos = p })).bytes
      ≡ front ++ drop amt rest
compact_loop_lem zero amt p to from n front rest h enough e1 e2 e3 = absurd (omega arith)
compact_loop_lem (suc fuel) amt p to from n front rest h enough e1 e2 e3 =
    rw (e1, e2, compact_round fuel amt p front rest h)
      (elim (Bool-cases (length v == block)) [
        | inl full ↦ rw full (
            moved
            ∙ compact_loop_lem fuel amt (length front + length v) (length front + length v)
                (length front + amt + length v) n (front ++ v) after (omega (arith, left, fits))
                (omega (arith, left, fits, (==_iff (length v) block).0 full))
                (omega (arith, joined)) (omega (arith, joined)) (omega (arith, joined, left, fits))
            ∙ append_assoc front v (drop amt after)
            ∙ ap (λ t. front ++ t) (kept_full block amt rest ((==_iff (length v) block).0 full)))
        | inr short ↦ rw short (last (kept_short block amt rest short))
      ])
  where
    v : Bytes
    v = chunk amt rest

    after : Bytes
    after = drop (length v) rest

    left : length after ≡ length rest - length v
    left = length-drop (length v) rest

    fits : length v + amt ≤ length rest
    fits = length-chunk amt rest h

    joined : length (front ++ v) ≡ length front + length v
    joined = length-append front v

    moved :
        take n
          (compact_loop fuel
            (length front + length v)
            (length front + amt + length v)
            (record { bytes = front ++ (v ++ after); pos = length front + length v })).bytes
        ≡ take n
            (compact_loop fuel
              (length front + length v)
              (length front + amt + length v)
              (record { bytes = (front ++ v) ++ after; pos = length front + length v })).bytes
    moved =
        ap
          (λ (bs : Bytes).
            take n
              (compact_loop fuel (length front + length v) (length front + amt + length v)
                (record { bytes = bs; pos = length front + length v })).bytes)
          (sym (append_assoc front v after))

    last : v ≡ drop amt rest → take n (front ++ (v ++ after)) ≡ front ++ drop amt rest
    last e =
        ap (λ (bs : Bytes). take n bs) (sym (append_assoc front v after))
        ∙ take-append_at n (front ++ v) after
            (omega (arith, joined, ap (λ (t : Bytes). length t) e, length-drop amt rest))
        ∙ ap (λ t. front ++ t) e

-- `_rtruncate(amt)` keeps exactly what stands behind the first `amt` bytes, wherever the position
-- of the file was.
pub rtruncate_lem :
    (amt : ℕ) (f : File) → amt ≤ length f.bytes → (rtruncate amt f).bytes ≡ drop amt f.bytes
unfolding rtruncate truncate_file seek_end
rtruncate_lem amt f h = elim (Bool-cases (length f.bytes == amt)) [
  | inl all ↦ rw all (gone ((==_iff (length f.bytes) amt).0 all))
  | inr some_left ↦ rw some_left (
      compact_loop_lem (suc (length f.bytes)) amt (length f.bytes) 0 amt (length f.bytes - amt) []
        f.bytes h (omega arith) refl (omega arith) (omega arith))
]
  where
    gone : length f.bytes ≡ amt → [] ≡ drop amt f.bytes
    gone e = rw (← e, drop-length f.bytes)
