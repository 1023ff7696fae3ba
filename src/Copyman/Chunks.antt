-- ===== src/Copyman/Chunks.antt =====
-- Many calls of `update` (copyman.py), for views that the stream was cut into.
use pg_cluster.Base.{
  Bool, Bool-cases, Bytes, List, Outcome, [], ap, arith, false, if_cases, if◌then◌else◌, inl, inr,
  length, length-append, ltb, ok, refl, suc, true, zero, ℕ, ◌++◌, ◌+◌, ◌-◌, ◌==◌, ◌>>=◌, ◌∙◌, ◌∷◌,
  ◌≡◌, ◌⊎◌,
}
use pg_cluster.Copyman.Position.{
  IsOpen, IsSound, Position, after_header, after_size, between, ends_message, follow, follow-append,
  follow-malformed, follow-stopped, in_body, in_header, malformed, next_position, stopped,
}
use pg_cluster.Copyman.Tracking.{state_at, update_lem}
use pg_cluster.Copyman.Wire.{Updated, WireState, getlen, update}
use pg_cluster.Element.Fields.{concat}

-- `update` of each view: the messages of all of them.
unfoldable pub update_all : (ℕ → Bool) → List Bytes → WireState → Outcome Updated
update_all condition [] w = ok (0, w)
update_all condition (view ∷ views) w = do
  (n, x) ← update condition view w
  (k, y) ← update_all condition views x
  ok (n + k, y)

count_shift :
    (e : Bool) (n : ℕ) (f : ℕ → ℕ × Position) (x : ℕ × Position)
    → ((k : ℕ) → f k ≡ (k + x.0, x.1))
    → f (if e then n + 1 else n)
      ≡ (n + (f (if e then 0 + 1 else 0)).0, (f (if e then 0 + 1 else 0)).1)
count_shift true n f x h = rw (h (n + 1), h (0 + 1)) (ap (λ (k : ℕ). (k, x.1)) (omega arith))
count_shift false n f x h = rw (h n, h 0) (ap (λ (k : ℕ). (k, x.1)) (omega arith))

module _ (condition : ℕ → Bool) where
  -- The number that is counted from
  follow-count :
      (n : ℕ) (p : Position) (v : Bytes)
      → follow condition n p v ≡ (n + (follow condition 0 p v).0, (follow condition 0 p v).1)
  unfolding follow
  follow-count n p [] = ap (λ (k : ℕ). (k, p)) (omega arith)
  follow-count n p (b ∷ v) =
      let q = next_position condition p b in
      count_shift (ends_message condition p b) n (λ k. follow condition k q v)
        (follow condition 0 q v) (λ k. follow-count k q v)

  -- A position is open, or it stays closed whatever follows.
  IsClosed : Position → Type 0
  IsClosed p = (n : ℕ) (v : Bytes) → ¬ IsOpen (follow condition n p v).1

  after_size-IsOpen : (s : ℕ) → IsOpen (after_size s) ⊎ IsClosed (after_size s)
  unfolding after_size IsClosed
  after_size-IsOpen s = elim (Bool-cases (ltb s 4)) [
    | inl small ↦ rw small (inr (λ n v o. rw (follow-malformed condition n v) at o))
    | inr large ↦
        rw large (inl (if_cases IsOpen (s == 4) between (in_body (s - 5)) (λ e. tt) (λ e. tt)))
  ]

  next_position-IsOpen :
      (p : Position) (b : ℕ)
      → IsOpen p
      → IsOpen (next_position condition p b) ⊎ IsClosed (next_position condition p b)
  unfolding next_position after_header IsClosed
  next_position-IsOpen between b o = elim (Bool-cases (condition b)) [
    | inl end ↦ rw end (inr (λ n v h. rw (follow-stopped condition n (b ∷ []) v) at h))
    | inr more ↦ rw more (inl (omega arith))
  ]
  next_position-IsOpen (in_header f) b o = elim (Bool-cases (length (f ++ b ∷ []) == 4)) [
    | inl whole ↦ rw whole (after_size-IsOpen (getlen (f ++ b ∷ [])))
    | inr short ↦ rw short (inl (ground (arith, length-append f (b ∷ []))))
  ]
  next_position-IsOpen (in_body zero) b o = inl tt
  next_position-IsOpen (in_body (suc m)) b o = inl tt
  next_position-IsOpen (stopped v) b o = absurd o
  next_position-IsOpen malformed b o = absurd o

  -- Where the stream is open at its end, it is at each byte.
  follow-IsOpen :
      (n : ℕ) (p : Position) (v w : Bytes)
      → IsOpen p
      → IsOpen (follow condition n p (v ++ w)).1
      → IsOpen (follow condition n p v).1
  unfolding follow IsClosed
  follow-IsOpen n p [] w o h = o
  follow-IsOpen n p (b ∷ v) w o h = elim (next_position-IsOpen p b o) [
    | inl open_still ↦
        follow-IsOpen (if ends_message condition p b then n + 1 else n)
          (next_position condition p b) v w open_still h
    | inr closed ↦ absurd (closed (if ends_message condition p b then n + 1 else n) (v ++ w) h)
  ]

  IsOpen-IsSound : (x : ℕ × Position) → IsOpen x.1 → IsSound x
  IsOpen-IsSound (n, between) h e = cc
  IsOpen-IsSound (n, in_header f) h e = cc
  IsOpen-IsSound (n, in_body m) h e = cc
  IsOpen-IsSound (n, stopped v) h e = cc
  IsOpen-IsSound (n, malformed) h e = h

  -- However the stream is cut into views, the calls of `update` count the messages that end in all of
  -- them and leave the state for the position behind them, where that is no end of the COPY data
  -- and no size is below 4.
  pub update_all_lem :
      (views : List Bytes) (p : Position)
      → IsOpen p
      → IsOpen (follow condition 0 p (concat views)).1
      → update_all condition views (state_at p)
        ≡ ok (
          (follow condition 0 p (concat views)).0,
          state_at (follow condition 0 p (concat views)).1,
        )
  unfolding update_all
  update_all_lem [] p o h = unfold follow in refl
  update_all_lem (v ∷ vs) p o h =
      let (n, q) = follow condition 0 p v in
      let here = follow-IsOpen 0 p v (concat vs) o h in
      let joined = follow-append condition 0 p v (concat vs) ∙ follow-count n q (concat vs) in
      let later : IsOpen (follow condition 0 q (concat vs)).1 = rw joined at h in
      rw
        (
          update_lem condition p v o (IsOpen-IsSound (n, q) here),
          update_all_lem vs q here later,
          joined,
        )
        refl
