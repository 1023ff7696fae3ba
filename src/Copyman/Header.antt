-- ===== src/Copyman/Header.antt =====
-- Headers in the stream of COPY messages (copyman.py): a header and its body are one run of bytes.
use pg_cluster.Base.{
  Bool, Bool-cases, Bytes, [], ap, append-nil, append_assoc, arith, false, if◌then◌else◌, inl, inr,
  length, length-append, ltb, refl, suc, sym, true, zero, ℕ, ◌++◌, ◌+◌, ◌-◌, ◌<◌, ◌==◌, ◌∙◌, ◌∷◌,
  ◌≡◌, ◌≢◌, ◌≤◌,
}
use pg_cluster.Copyman.Position.{
  IsSound, Position, after_header, after_size, between, ends_message, follow, follow-malformed,
  in_body, in_header, next_position,
}
use pg_cluster.Copyman.Wire.{getlen}

module _ (condition : ℕ → Bool) where
  -- Behind a header with that size
  unfoldable pub size_run : ℕ → ℕ → Bytes → ℕ × Position
  size_run n s v = follow condition (if s == 4 then n + 1 else n) (after_size s) v

  pub size_run-enough : (n s : ℕ) (v : Bytes) → IsSound (size_run n s v) → 4 ≤ s
  unfolding size_run after_size
  size_run-enough n s v h = elim (Bool-cases (ltb s 4)) [
    | inl small ↦ absurd (h (rw small (follow-malformed condition (if s == 4 then n + 1 else n) v)))
    | inr large ↦ ground arith
  ]

  -- The last bytes of a header count as bytes of the body.
  pub size_run-body :
      (h v : Bytes) (n s m : ℕ)
      → h ≢ []
      → 4 ≤ s
      → m + 5 ≡ s + length h
      → follow condition n (in_body m) (h ++ v) ≡ size_run n s v
  unfolding size_run after_size follow next_position ends_message
  size_run-body [] v n s m h l e = absurd (h refl)
  size_run-body (x ∷ []) v n s zero h l e = let four : s ≡ 4 = omega arith in rw four refl
  size_run-body (x ∷ []) v n s (suc k) h l e =
      let large : ltb s 4 ≡ false = ground arith in
      let other : (s == 4) ≡ false = ground arith in
      let rest : s - 5 ≡ k = omega arith in rw (large, other, rest) refl
  size_run-body (x ∷ y ∷ ys) v n s zero h l e = absurd (omega arith)
  size_run-body (x ∷ y ∷ ys) v n s (suc k) h l e =
      size_run-body (y ∷ ys) v n s k (λ z. cc) l (omega arith)

  pub header_run :
      (n t a b c d : ℕ) (v : Bytes)
      → condition t ≡ false
      → follow condition n between (t ∷ a ∷ b ∷ c ∷ d ∷ v)
        ≡ size_run n (getlen (a ∷ b ∷ c ∷ d ∷ [])) v
  unfolding follow next_position ends_message after_header size_run
  header_run n t a b c d v e = rw e refl

  pub header_run-body :
      (n t a b c d : ℕ) (v : Bytes)
      → condition t ≡ false
      → IsSound (follow condition n between (t ∷ a ∷ b ∷ c ∷ d ∷ v))
      → follow condition n between (t ∷ a ∷ b ∷ c ∷ d ∷ v)
        ≡ follow condition n (in_body (getlen (a ∷ b ∷ c ∷ d ∷ []))) (t ∷ a ∷ b ∷ c ∷ d ∷ v)
  header_run-body n t a b c d v e h =
      let whole = header_run n t a b c d v e in
      let size = getlen (a ∷ b ∷ c ∷ d ∷ []) in
      let enough = size_run-enough n size v (rw whole at h) in
      whole ∙ sym (size_run-body (t ∷ a ∷ b ∷ c ∷ d ∷ []) v n size size (λ z. cc) enough refl)

  -- One byte, where its step is known
  pub follow_step :
      (n k b : ℕ) (p q : Position) (v : Bytes)
      → (if ends_message condition p b then n + 1 else n) ≡ k
      → next_position condition p b ≡ q
      → follow condition n p (b ∷ v) ≡ follow condition k q v
  unfolding follow
  follow_step n k b p q v d e = λ i. follow condition (d i) (e i) v

  -- A header that the view cuts
  pub follow-header_cut :
      (n t : ℕ) (v : Bytes)
      → condition t ≡ false
      → length v ≤ 3
      → follow condition n between (t ∷ v) ≡ (n, in_header v)
  unfolding follow next_position ends_message after_header
  follow-header_cut n t [] e h = rw e refl
  follow-header_cut n t (a ∷ []) e h = rw e refl
  follow-header_cut n t (a ∷ b ∷ []) e h = rw e refl
  follow-header_cut n t (a ∷ b ∷ c ∷ []) e h = rw e refl
  follow-header_cut n t (a ∷ b ∷ c ∷ d ∷ v) e h = absurd (omega arith)

  header_byte :
      (n x : ℕ) (f v : Bytes)
      → length f < 3
      → follow condition n (in_header f) (x ∷ v) ≡ follow condition n (in_header (f ++ x ∷ [])) v
  header_byte n x f v l =
      let short : (length (f ++ x ∷ []) == 4) ≡ false = ground (arith, length-append f (x ∷ [])) in
      let early : (length f == 3) ≡ false = ground arith in
      follow_step n n x (in_header f) (in_header (f ++ x ∷ [])) v
        (unfold ends_message in rw early refl) (unfold next_position after_header in rw short refl)

  pub join_header_cut :
      (f v : Bytes)
      → length f + length v < 4
      → follow condition 0 (in_header f) v ≡ (0, in_header (f ++ v))
  join_header_cut f [] l = unfold follow in rw (append-nil f) refl
  join_header_cut f (b ∷ v) l =
      header_byte 0 b f v (omega arith)
      ∙ join_header_cut (f ++ b ∷ []) v (omega (arith, length-append f (b ∷ [])))
      ∙ ap (λ (w : Bytes). (0, in_header w)) (append_assoc f (b ∷ []) v)

  -- A header that the view completes
  pub join_header_whole :
      (f h v : Bytes)
      → h ≢ []
      → length f + length h ≡ 4
      → follow condition 0 (in_header f) (h ++ v) ≡ size_run 0 (getlen (f ++ h)) v
  join_header_whole f [] v z l = absurd (z refl)
  join_header_whole f (x ∷ []) v z l =
      let whole : (length (f ++ x ∷ []) == 4) ≡ true = ground (arith, length-append f (x ∷ [])) in
      let last : (length f == 3) ≡ true = ground arith in
      unfold size_run in
      follow_step 0 _ x (in_header f) (after_size (getlen (f ++ x ∷ []))) v
        (unfold ends_message in rw last refl) (unfold next_position after_header in rw whole refl)
  join_header_whole f (x ∷ y ∷ ys) v z l =
      header_byte 0 x f ((y ∷ ys) ++ v) (omega arith)
      ∙ join_header_whole (f ++ x ∷ []) (y ∷ ys) v (λ e. cc)
          (omega (arith, length-append f (x ∷ [])))
      ∙ ap (λ (w : Bytes). size_run 0 (getlen w) v) (append_assoc f (x ∷ []) (y ∷ ys))
