-- ===== src/Buffer/Cut.antt =====
-- The specification of the message stream on bytes that arrive in two parts.
use pg_cluster.Base.{
  Bool-cases, Bytes, Exception, List, Option, Option-cases, Outcome, [], ap, arith, bind_returns,
  drop, drop-append_le, false, inl, inr, length, length-append, length-drop, ltb, none, ok, raise,
  refl, some, suc, sym, take, take-append_le, zero, ℕ, ◌++◌, ◌+◌, ◌-◌, ◌∙◌, ◌∷◌, ◌≡◌, ◌≢◌, ◌≤◌, ◌⊎◌,
}
use pg_cluster.Buffer.Observe.{take_test}
use pg_cluster.Buffer.Refine.{read_header-some}
use pg_cluster.Buffer.Spec.{Rest, take_message, take_messages, take_more, take_parts}
use pg_cluster.Buffer.Stream.{Frame, read, read_header}

pub not_less : (a k : ℕ) → k ≤ a → ltb a k ≡ false
not_less a k h = ground arith

not_short : (a k : ℕ) → ltb a k ≡ false → k ≤ a
not_short a k h = ground arith

module _ (typ size : ℕ) (w more : Bytes) where
  -- A message that is whole stays what it is, and what follows joins the rest.
  take_parts-some :
      (m : Frame) (rest : Bytes)
      → take_parts (some (typ, size)) w ≡ ok (some (m, rest))
      → take_parts (some (typ, size)) (w ++ more) ≡ ok (some (m, rest ++ more))
  unfolding take_parts
  take_parts-some m rest = elim (Bool-cases (ltb size 4)) [
    | inl small ↦ rw small (λ e. cc)
    | inr big ↦
        rw (big, take_test (size - 4) w, take_test (size - 4) (w ++ more))
          (elim (Bool-cases (ltb (length w) (size - 4))) [
            | inl short ↦ rw short (λ e. cc)
            | inr whole ↦
                let k = not_short (length w) (size - 4) whole in
                let still =
                  not_less (length (w ++ more)) (size - 4)
                    (omega (arith, k, length-append w more)) in
                rw
                  (
                    whole,
                    still,
                    take-append_le (size - 4) w more k,
                    drop-append_le (size - 4) w more k,
                  )
                  (λ e. cc)
          ])
  ]

  take_parts-raise :
      (x : Exception)
      → take_parts (some (typ, size)) w ≡ raise x
      → take_parts (some (typ, size)) (w ++ more) ≡ raise x
  unfolding take_parts
  take_parts-raise x = elim (Bool-cases (ltb size 4)) [
    | inl small ↦ rw small (λ e. e)
    | inr big ↦ rw (big) (elim (Bool-cases (ltb (length (take (size - 4) w)) (size - 4))) [
      | inl short ↦ rw short (λ e. cc)
      | inr whole ↦ rw whole (λ e. cc)
    ])
  ]

-- Bytes behind a header change nothing about it.
header_append :
    (v more : Bytes) (p : ℕ × ℕ)
    → read_header v ≡ some p
    → (read_header (v ++ more) ≡ some p) × (drop 5 (v ++ more) ≡ drop 5 v ++ more)
unfolding read_header
header_append (a ∷ b ∷ c ∷ d ∷ e ∷ v) more p h = (h, refl)
header_append [] more p h = cc
header_append (a ∷ []) more p h = cc
header_append (a ∷ b ∷ []) more p h = cc
header_append (a ∷ b ∷ c ∷ []) more p h = cc
header_append (a ∷ b ∷ c ∷ d ∷ []) more p h = cc

-- Bytes behind a whole message change nothing about it.
pub take_message-some :
    (v more : Bytes) (m : Frame) (rest : Bytes)
    → take_message v ≡ ok (some (m, rest))
    → take_message (v ++ more) ≡ ok (some (m, rest ++ more))
take_message-some v more m rest = elim (Option-cases (read_header v)) [
  | inl nothing ↦ unfold take_message take_parts in rw nothing (λ e. cc)
  | inr (p, e) ↦
      let (e', d) = header_append v more p e in
      unfold take_message in rw (e, e', d) (take_parts-some p.0 p.1 (drop 5 v) more m rest)
]

pub take_message-raise :
    (v more : Bytes) (x : Exception) → take_message v ≡ raise x → take_message (v ++ more) ≡ raise x
take_message-raise v more x = elim (Option-cases (read_header v)) [
  | inl nothing ↦ unfold take_message take_parts in rw nothing (λ e. cc)
  | inr (p, e) ↦
      let (e', d) = header_append v more p e in
      unfold take_message in rw (e, e', d) (take_parts-raise p.0 p.1 (drop 5 v) more x)
]

take_parts_shorter :
    (typ size : ℕ) (w : Bytes) (m : Frame) (rest : Bytes)
    → take_parts (some (typ, size)) w ≡ ok (some (m, rest))
    → length rest ≤ length w
unfolding take_parts
take_parts_shorter typ size w m rest = elim (Bool-cases (ltb size 4)) [
  | inl small ↦ rw small (λ e. cc)
  | inr big ↦ rw big (elim (Bool-cases (ltb (length (take (size - 4) w)) (size - 4))) [
    | inl short ↦ rw short (λ e. cc)
    | inr whole ↦ rw whole (λ e.
        let d : drop (size - 4) w ≡ rest = cc in
        omega (arith, ap (λ (t : Bytes). length t) d, length-drop (size - 4) w))
  ])
]

-- A message takes five bytes at least.
pub take_message_shorter :
    (v : Bytes) (m : Frame) (rest : Bytes)
    → take_message v ≡ ok (some (m, rest))
    → length rest + 5 ≤ length v
take_message_shorter v m rest = elim (Option-cases (read_header v)) [
  | inl nothing ↦ unfold take_message take_parts in rw nothing (λ e. cc)
  | inr (p, e) ↦
      unfold take_message in
      rw e (λ f. omega (
        arith,
        take_parts_shorter p.0 p.1 (drop 5 v) m rest f,
        length-drop 5 v,
        read_header-some v p e,
      ))
]

-- What a call of `take_message` gives, with the equation.
abbrev pub Taken : Bytes → Type 0
Taken v =
    ((x : Exception) × (take_message v ≡ raise x))
    ⊎ ((take_message v ≡ ok none)
        ⊎ ((m : Frame) × (rest : Bytes) × (take_message v ≡ ok (some (m, rest)))))

Taken-cases : (v : Bytes) (t : Outcome (Option Rest)) → take_message v ≡ t → Taken v
Taken-cases v (raise x) e = inl (x, e)
Taken-cases v (ok none) e = inr (inl e)
Taken-cases v (ok (some (m, rest))) e = inr (inr (m, rest, e))

pub taken : (v : Bytes) → Taken v
taken v = Taken-cases v (take_message v) refl

take_messages-nil : (n : ℕ) (v : Bytes) → length v ≤ 0 → take_messages n v ≡ ok ([], v)
unfolding take_messages take_message take_parts take_more read_header
take_messages-nil zero v h = refl
take_messages-nil (suc n) [] h = refl
take_messages-nil (suc n) (b ∷ v) h = absurd (omega arith)

-- With a bound of at least the length, the bound does not matter.
pub take_messages_bound :
    (n k : ℕ) (v : Bytes) → length v ≤ n → length v ≤ k → take_messages n v ≡ take_messages k v
unfolding take_messages take_more
take_messages_bound zero zero v hn hk = refl
take_messages_bound zero (suc k) v hn hk = sym (take_messages-nil (suc k) v hn)
take_messages_bound (suc n) zero v hn hk = take_messages-nil (suc n) v hk
take_messages_bound (suc n) (suc k) v hn hk = elim (taken v) [
  | inl (x, e) ↦ rw e (unfold take_more in refl)
  | inr (inl e) ↦ rw e (unfold take_more in refl)
  | inr (inr (m, rest, e)) ↦
      let less = take_message_shorter v m rest e in
      rw (e, take_more, take_messages_bound n k rest (omega (arith, less)) (omega (arith, less)))
]

-- How a read of `v ++ more` is made up of a read of `v`, and of one of what that leaves with
-- `more` behind it.
pub record IsCut (n : ℕ) (v more : Bytes) (all : List Frame) (rest : Bytes) : Type 0 where
  pub first : List Frame
  pub left : Bytes
  pub later : List Frame
  pub first_read : take_messages n v ≡ ok (first, left)
  pub later_read : take_messages n (left ++ more) ≡ ok (later, rest)
  pub together : all ≡ first ++ later
  pub drained : take_message left ≡ ok none
  pub shorter : length left ≤ length v

IsCut-step :
    (n : ℕ) (v w more : Bytes) (m : Frame) (all : List Frame) (rest : Bytes)
    → take_message v ≡ ok (some (m, w))
    → length v + length more ≤ suc n
    → IsCut n w more all rest
    → IsCut (suc n) v more (m ∷ all) rest
unfolding take_messages take_more
IsCut-step n v w more m all rest e fits c =
    let less = take_message_shorter v m w e in
    record {
      first = m ∷ c.first;
      left = c.left;
      later = c.later;
      first_read = rw (e, c.first_read);
      later_read =
          take_messages_bound (suc n) n (c.left ++ more)
            (omega (arith, less, c.shorter, length-append c.left more))
            (omega (arith, less, c.shorter, length-append c.left more))
          ∙ c.later_read;
      together = ap (λ t. m ∷ t) c.together;
      drained = c.drained;
      shorter = omega (arith, less, c.shorter);
    }

cut_never :
    (n : ℕ) (v more : Bytes) (x : Exception) (t : List Frame × Bytes)
    → take_message v ≡ raise x
    → take_messages (suc n) (v ++ more) ≢ ok t
unfolding take_messages take_more
cut_never n v more x t f = rw (take_message-raise v more x f) (λ e. cc)

cut_opened :
    (n : ℕ) (v w more : Bytes) (m : Frame) (r : List Frame × Bytes)
    → take_message v ≡ ok (some (m, w))
    → take_messages (suc n) (v ++ more) ≡ ok r
    → (t : List Frame × Bytes) × (take_messages n (w ++ more) ≡ ok t) × (ok (m ∷ t.0, t.1) ≡ ok r)
unfolding take_messages take_more
cut_opened n v w more m r f =
    rw (take_message-some v more m w f)
      (λ e. bind_returns (take_messages n (w ++ more)) (λ t. ok (m ∷ t.0, t.1)) e)

pub cut :
    (n : ℕ) (v more : Bytes) (all : List Frame) (rest : Bytes)
    → length v + length more ≤ n
    → take_messages n (v ++ more) ≡ ok (all, rest)
    → IsCut n v more all rest
cut zero [] more all rest fits e = record {
  first = [];
  left = [];
  later = all;
  first_read = unfold take_messages in refl;
  later_read = e;
  together = refl;
  drained = unfold take_message read_header take_parts in refl;
  shorter = omega arith;
}
cut zero (b ∷ v) more all rest fits e = absurd (omega arith)
cut (suc n) v more all rest fits e = elim (taken v) [
  | inl (x, f) ↦ absurd (cut_never n v more x (all, rest) f e)
  | inr (inl f) ↦ record {
    first = [];
    left = v;
    later = all;
    first_read = unfold take_messages take_more in rw f;
    later_read = e;
    together = refl;
    drained = f;
    shorter = omega arith;
  }
  | inr (inr (m, w, f)) ↦
      let less = take_message_shorter v m w f in
      let (t, read, joined) = cut_opened n v w more m (all, rest) f e in
      let e1 : m ∷ t.0 ≡ all = cc in
      let e2 : t.1 ≡ rest = cc in
      rw (← e1, ← e2)
        (IsCut-step n v w more m t.0 t.1 f fits (cut n w more t.0 t.1 (omega (arith, less)) read))
]
