-- ===== src/Copyman/Position.antt =====
-- What `WireState` of copyman.py keeps track of, byte by byte: where a byte stands in the stream of
-- messages, whatever the cuts.
use pg_cluster.Base.{
  Bool, Bytes, [], ap, append-nil, append_assoc, arith, drop, false, if◌then◌else◌, length, ltb,
  refl, suc, true, zero, ℕ, ◌&&◌, ◌++◌, ◌+◌, ◌-◌, ◌<◌, ◌==◌, ◌∙◌, ◌∷◌, ◌≡◌, ◌≢◌, ◌≤◌,
}
use pg_cluster.Copyman.Wire.{getlen}

-- Between two messages; in a header, with the bytes of the size so far; in a body, with the number
-- of bytes behind the next one; behind the end of the COPY data, with what came there; and behind a
-- header with a size below 4.
pub data Position : Type 0 where
  between : Position
  in_header : Bytes → Position
  in_body : ℕ → Position
  stopped : Bytes → Position
  malformed : Position

-- Where a position can be between two calls of `update`
abbrev pub IsOpen : Position → Type 0
IsOpen between = Unit
IsOpen (in_header f) = length f < 4
IsOpen (in_body m) = Unit
IsOpen (stopped v) = ⊥
IsOpen malformed = ⊥

abbrev pub IsSound : ℕ × Position → Type 0
IsSound x = x.1 ≢ malformed

unfoldable pub after_size : ℕ → Position
after_size s = if ltb s 4 then malformed else if s == 4 then between else in_body (s - 5)

unfoldable pub after_header : Bytes → Position
after_header f = if length f == 4 then after_size (getlen f) else in_header f

module _ (condition : ℕ → Bool) where
  unfoldable pub next_position : Position → ℕ → Position
  next_position between b = if condition b then stopped (b ∷ []) else in_header []
  next_position (in_header f) b = after_header (f ++ b ∷ [])
  next_position (in_body zero) b = between
  next_position (in_body (suc m)) b = in_body m
  next_position (stopped v) b = stopped (v ++ b ∷ [])
  next_position malformed b = malformed

  -- Whether the byte is the last one of a message
  unfoldable pub ends_message : Position → ℕ → Bool
  ends_message (in_header f) b = (length f == 3) && (getlen (f ++ b ∷ []) == 4)
  ends_message (in_body zero) b = true
  ends_message p b = false

  -- Byte by byte: the messages that ended, added to a number, and the position.
  unfoldable pub follow : ℕ → Position → Bytes → ℕ × Position
  follow n p [] = (n, p)
  follow n p (b ∷ v) = follow (if ends_message p b then n + 1 else n) (next_position p b) v

  -- The cuts do not matter.
  pub follow-append :
      (n : ℕ) (p : Position) (v w : Bytes)
      → follow n p (v ++ w) ≡ follow (follow n p v).0 (follow n p v).1 w
  unfolding follow
  follow-append n p [] w = refl
  follow-append n p (b ∷ v) w =
      follow-append (if ends_message p b then n + 1 else n) (next_position p b) v w

  pub follow-stopped : (n : ℕ) (v w : Bytes) → follow n (stopped v) w ≡ (n, stopped (v ++ w))
  unfolding follow next_position ends_message
  follow-stopped n v [] = rw (append-nil v) refl
  follow-stopped n v (b ∷ w) =
      follow-stopped n (v ++ b ∷ []) w ∙ rw (append_assoc v (b ∷ []) w) refl

  pub follow-malformed : (n : ℕ) (w : Bytes) → (follow n malformed w).1 ≡ malformed
  unfolding follow next_position ends_message
  follow-malformed n [] = refl
  follow-malformed n (b ∷ w) = follow-malformed n w

  -- A body that ends in the view, and one that does not
  pub follow-body :
      (m n : ℕ) (v : Bytes)
      → m < length v
      → follow n (in_body m) v ≡ follow (n + 1) between (drop (suc m) v)
  unfolding follow next_position ends_message
  follow-body m n [] h = absurd (omega arith)
  follow-body zero n (b ∷ v) h = refl
  follow-body (suc m) n (b ∷ v) h = follow-body m n v (omega arith)

  pub follow-body_open :
      (m n : ℕ) (v : Bytes) → length v ≤ m → follow n (in_body m) v ≡ (n, in_body (m - length v))
  unfolding follow next_position ends_message
  follow-body_open m n [] h = ap (λ (k : ℕ). (n, in_body k)) (omega arith)
  follow-body_open zero n (b ∷ v) h = absurd (omega arith)
  follow-body_open (suc m) n (b ∷ v) h =
      follow-body_open m n v (omega arith) ∙ ap (λ (k : ℕ). (n, in_body k)) (omega arith)
