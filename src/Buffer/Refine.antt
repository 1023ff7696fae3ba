-- ===== src/Buffer/Refine.antt =====
-- Every method of `pq_message_stream` does to the pending bytes what the specification does.
use pg_cluster.Base.{
  Bool-cases, Bytes, List, Option, Outcome, [], ap, append-nil, append_assoc, arith, drop,
  drop-drop, false, inl, inr, length, length-drop, length-take, length-take_le,
  length-take_le_length, ltb, none, ok, raise, refl, some, suc, sym, take, zero, ℕ, ◌++◌, ◌+◌, ◌-◌,
  ◌>>=◌, ◌∙◌, ◌∷◌, ◌≡◌, ◌≤◌,
}
use pg_cluster.Buffer.Compact.{rtruncate_lem}
use pg_cluster.Buffer.File.{File, read_bytes, seek}
use pg_cluster.Buffer.Spec.{
  IsStream, Rest, next_of, pending, read_of, take_message, take_messages, take_more, take_parts,
}
use pg_cluster.Buffer.Stream.{
  Frame, MessageStream, advance, finish_read, get_body, get_message, get_parts, limit, next_message,
  read, read_header, read_loop, read_more, trim,
}

pub read_header-take : (v : Bytes) → read_header (take 5 v) ≡ read_header v
unfolding read_header
read_header-take [] = refl
read_header-take (a ∷ []) = refl
read_header-take (a ∷ b ∷ []) = refl
read_header-take (a ∷ b ∷ c ∷ []) = refl
read_header-take (a ∷ b ∷ c ∷ d ∷ []) = refl
read_header-take (a ∷ b ∷ c ∷ d ∷ e ∷ v) = refl

pub read_header-some : (v : Bytes) (p : ℕ × ℕ) → read_header v ≡ some p → 5 ≤ length v
unfolding read_header
read_header-some [] p h = cc
read_header-some (a ∷ []) p h = cc
read_header-some (a ∷ b ∷ []) p h = cc
read_header-some (a ∷ b ∷ c ∷ []) p h = cc
read_header-some (a ∷ b ∷ c ∷ d ∷ []) p h = cc
read_header-some (a ∷ b ∷ c ∷ d ∷ e ∷ v) p h = omega arith

-- What a call of `_get_message` at position `p` of the file `b` gives, by the specification.
abbrev Follows : Bytes → ℕ → Outcome (Option Rest) → Outcome (Option Frame) × File → Type 0
Follows b p (raise e) (o, f) = (o ≡ raise e) × (f.bytes ≡ b)
Follows b p (ok none) (o, f) = (o ≡ ok none) × (f.bytes ≡ b)
Follows b p (ok (some (m, r))) (o, f) =
    (o ≡ ok (some m))
    × (f.bytes ≡ b)
    × (f.pos ≡ p + (5 + length m.1))
    × (f.pos ≤ length b)
    × (drop f.pos b ≡ r)

eq_of_full : (a n : ℕ) → a ≤ n → ltb a n ≡ false → a ≡ n
eq_of_full a n h e = ground arith

get_body-Follows :
    (b : Bytes) (p typ size : ℕ)
    → 5 ≤ length (drop p b)
    → Follows b p
        (take_parts (some (typ, size)) (drop 5 (drop p b)))
        (get_body typ size (record { bytes = b; pos = p + 5 }))
unfolding get_body take_parts read_bytes
get_body-Follows b p typ size h =
    rw (drop-drop 5 p (p + 5) b refl) (elim (Bool-cases (ltb size 4)) [
      | inl small ↦ rw small (refl, refl)
      | inr big ↦ rw big (elim (Bool-cases (ltb (length body) (size - 4))) [
        | inl short ↦ rw short (refl, refl)
        | inr whole ↦
            rw whole
              (refl, refl, omega arith, fits, sym (drop-drop (size - 4) (p + 5) _ b (past whole)))
      ])
    ])
  where
    body : Bytes
    body = take (size - 4) (drop (p + 5) b)

    fits : p + 5 + length body ≤ length b
    fits = omega (
      arith,
      h,
      length-drop p b,
      length-drop (p + 5) b,
      length-take_le_length (size - 4) (drop (p + 5) b),
    )

    past : ltb (length body) (size - 4) ≡ false → p + 5 + length body ≡ p + 5 + (size - 4)
    past e =
        ap (λ (n : ℕ). p + 5 + n) (eq_of_full _ _ (length-take_le (size - 4) (drop (p + 5) b)) e)

get_parts-Follows :
    (b : Bytes) (p q : ℕ) (header : Option (ℕ × ℕ))
    → read_header (drop p b) ≡ header
    → q ≡ p + length (take 5 (drop p b))
    → Follows b p
        (take_parts header (drop 5 (drop p b)))
        (get_parts header (record { bytes = b; pos = q }))
unfolding get_parts
get_parts-Follows b p q none e at' = unfold take_parts in (refl, refl)
get_parts-Follows b p q (some (typ, size)) e at' =
    let enough = read_header-some (drop p b) (typ, size) e in
    let q5 : q ≡ p + 5 = omega (arith, at', length-take 5 (drop p b) enough) in
    rw q5 (get_body-Follows b p typ size enough)

-- `_get_message` reads the message that stands at the position.
get_message-Follows :
    (b : Bytes) (p : ℕ)
    → Follows b p (take_message (drop p b)) (get_message (record { bytes = b; pos = p }))
unfolding get_message take_message read_bytes
get_message-Follows b p =
    rw (read_header-take (drop p b))
      (get_parts-Follows b p (p + length (take 5 (drop p b))) (read_header (drop p b)) refl refl)

-- Trimming moves the pending bytes to the front of the file.
pub trim_lem : (s : MessageStream) → IsStream s → IsStream (trim s) × (pending (trim s) ≡ pending s)
unfolding trim pending
trim_lem s h = elim (Bool-cases (ltb limit s.start)) [
  | inl far ↦ rw far (omega arith, rtruncate_lem s.start s.file h)
  | inr near ↦ rw near (h, refl)
]

-- A method's result and its new state against the specification over the pending bytes.
abbrev pub Refines {ℓ} : {A : Type ℓ} → A × MessageStream → A × Bytes → Type ℓ
Refines (o, s) (o', v) = (o ≡ o') × (pending s ≡ v) × IsStream s

next_Refines :
    (s : MessageStream) (spec : Outcome (Option Rest)) (r : Outcome (Option Frame) × File)
    → IsStream s
    → Follows s.file.bytes s.start spec r
    → Refines (advance s r) (next_of (pending s) spec)
unfolding advance next_of pending
next_Refines s (raise e) (o, g) h f =
    rw (f.0, advance) (refl, ap (λ (b : Bytes). drop s.start b) f.1, rw f.1 h)
next_Refines s (ok none) (o, g) h f =
    rw (f.0, advance) (refl, ap (λ (b : Bytes). drop s.start b) f.1, rw f.1 h)
next_Refines s (ok (some (m, rest))) (o, g) h f =
    rw (f.0, advance) (refl, ap (λ (b : Bytes). drop g.pos b) f.1 ∙ f.4, rw f.1 f.3)

-- `next_message` returns the first pending message and removes it, returns nothing and removes
-- nothing if there is no whole message, and raises on a size below 4, removing nothing.
pub next_message-Refines :
    (s : MessageStream)
    → IsStream s
    → Refines (next_message s) (next_of (pending s) (take_message (pending s)))
unfolding next_message seek
next_message-Refines s h =
    let (t, same) = trim_lem s h in
    rw (← same) (
      unfold pending in
      next_Refines (trim s) (take_message (drop (trim s).start (trim s).file.bytes)) _ t
        (get_message-Follows (trim s).file.bytes (trim s).start))

abbrev ReadFollows :
    Bytes → List Frame → Outcome (List Frame × Bytes) → Outcome (List Frame × ℕ) × File → Type 0
ReadFollows b l (raise e) (o, f) = (o ≡ raise e) × (f.bytes ≡ b)
ReadFollows b l (ok (ms, r)) (o, f) =
    (n : ℕ) × (o ≡ ok (l ++ ms, n)) × (f.bytes ≡ b) × (n ≤ length b) × (drop n b ≡ r)

file_eq :
    (g : File) (b : Bytes) (q : ℕ) → g.bytes ≡ b → g.pos ≡ q → g ≡ record { bytes = b; pos = q }
file_eq g b q e1 e2 = λ i. record { bytes = e1 i; pos = e2 i }

ReadFollows-cons :
    (b : Bytes) (l : List Frame) (m : Frame) (spec : Outcome (List Frame × Bytes))
    (r : Outcome (List Frame × ℕ) × File)
    → ReadFollows b (l ++ m ∷ []) spec r
    → ReadFollows b l (spec >>= λ t. ok (m ∷ t.0, t.1)) r
ReadFollows-cons b l m (raise e) (o, g) f = f
ReadFollows-cons b l m (ok (ms, rest)) (o, g) f =
    (f.0, f.1 ∙ ap (λ t. ok (t, f.0)) (append_assoc l (m ∷ []) ms), f.2, f.3, f.4)

read_more-Follows :
    (num : ℕ) (l : List Frame) (b : Bytes) (p : ℕ) (spec : Outcome (Option Rest))
    (r : Outcome (Option Frame) × File)
    → p ≤ length b
    → Follows b p spec r
    → ((m : Frame) (q : ℕ)
        → q ≤ length b
        → ReadFollows b
            (l ++ m ∷ [])
            (take_messages num (drop q b))
            (read_loop num (l ++ m ∷ []) q (record { bytes = b; pos = q })))
    → ReadFollows b l
        (take_more (λ w. take_messages num w) (drop p b) spec)
        (read_more (λ l' n g. read_loop num l' n g) l p r)
unfolding read_more take_more
read_more-Follows num l b p (raise e) (o, g) h f again = rw (f.0, read_more) (refl, f.1)
read_more-Follows num l b p (ok none) (o, g) h f again =
    rw (f.0, read_more) (p, ap (λ t. ok (t, p)) (sym (append-nil l)), f.1, h, refl)
read_more-Follows num l b p (ok (some (m, rest))) (o, g) h f again =
    let q = p + (5 + length m.1) in
    let at_rest : drop q b ≡ rest = ap (λ (n : ℕ). drop n b) (sym f.2) ∙ f.4 in
    rw (f.0, read_more, file_eq g b q f.1 f.2)
      (ReadFollows-cons b l m (take_messages num rest) _
        (rw at_rest at (again m q (omega (arith, f.2, f.3)))))

-- The loop of `read`, from any position at which messages `l` have been read.
read_loop-Follows :
    (num : ℕ) (l : List Frame) (b : Bytes) (p : ℕ)
    → p ≤ length b
    → ReadFollows b l
        (take_messages num (drop p b))
        (read_loop num l p (record { bytes = b; pos = p }))
unfolding read_loop take_messages
read_loop-Follows zero l b p h = (p, ap (λ t. ok (t, p)) (sym (append-nil l)), refl, h, refl)
read_loop-Follows (suc num) l b p h =
    read_more-Follows num l b p (take_message (drop p b)) _ h (get_message-Follows b p)
      (λ m q. read_loop-Follows num (l ++ m ∷ []) b q)

finish_Refines :
    (s : MessageStream) (spec : Outcome (List Frame × Bytes)) (r : Outcome (List Frame × ℕ) × File)
    → IsStream s
    → ReadFollows s.file.bytes [] spec r
    → Refines (finish_read s r) (read_of (pending s) spec)
unfolding finish_read read_of pending
finish_Refines s (raise e) (o, g) h f =
    rw (f.0, finish_read) (refl, ap (λ (b : Bytes). drop s.start b) f.1, rw f.1 h)
finish_Refines s (ok (ms, rest)) (o, g) h f =
    rw (f.1, finish_read) (refl, ap (λ (b : Bytes). drop f.0 b) f.2 ∙ f.4, rw f.2 f.3)

-- `read` returns the pending messages, `num` at most, and removes them; where it raises it
-- removes nothing.
pub read-Refines :
    (num : ℕ) (s : MessageStream)
    → IsStream s
    → Refines (read num s) (read_of (pending s) (take_messages num (pending s)))
unfolding read seek
read-Refines num s h =
    let (t, same) = trim_lem s h in
    rw (← same) (
      unfold pending in
      finish_Refines (trim s) (take_messages num (drop (trim s).start (trim s).file.bytes)) _ t
        (read_loop-Follows num [] (trim s).file.bytes (trim s).start t))
