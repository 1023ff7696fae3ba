-- ===== src/Buffer/Count.antt =====
-- `__len__` of `pq_message_stream` counts the messages that `read` would return.
use pg_cluster.Base.{
  ==_iff, Bool-cases, Bytes, List, Option, Outcome, [], ap, arith, drop, drop-drop, drop-nil, false,
  if◌then◌else◌, inl, inr, length, length-drop, length-take, ltb, none, not, ok, raise, refl, some,
  suc, sym, take, zero, ℕ, ◌+◌, ◌-◌, ◌<◌, ◌==◌, ◌>>=◌, ◌∙◌, ◌∷◌, ◌≡◌, ◌≤◌,
}
use pg_cluster.Buffer.File.{File, read_bytes, seek}
use pg_cluster.Buffer.Observe.{take_test}
use pg_cluster.Buffer.Refine.{read_header-some, read_header-take}
use pg_cluster.Buffer.Spec.{count_of, pending, take_message, take_messages, take_more, take_parts}
use pg_cluster.Buffer.Stream.{
  Frame, MessageStream, count_loop, count_round, message_count, read_header,
}

abbrev add_count : ℕ → Outcome ℕ → Outcome ℕ
add_count n (raise e) = raise e
add_count n (ok k) = ok (n + k)

-- The last byte of the message is there exactly where the body is whole.
last_test : (b : Bytes) (q : ℕ) → (length (take 1 (drop q b)) == 1) ≡ ltb q (length b)
last_test [] q = rw (drop-nil q) (ground arith)
last_test (x ∷ b) zero = ground arith
last_test (x ∷ b) (suc q) = ground (arith, last_test b q)

count_more :
    (n : ℕ) (m : Frame) (t : Outcome (List Frame × Bytes))
    → add_count n (count_of (t >>= λ u. ok (m ∷ u.0, u.1))) ≡ add_count (n + 1) (count_of t)
unfolding count_of
count_more n m (raise e) = refl
count_more n m (ok (ms, r)) = ap ok (omega arith)

module _ (b : Bytes) (p size n num : ℕ) (typ : ℕ) (big : ltb size 4 ≡ false)
    (enough : 5 ≤ length (drop p b)) where
  abbrev rest : Bytes
  rest = drop 5 (drop p b)

  sizes : (4 ≤ size) × (length (drop p b) ≡ length b - p) × (length rest ≡ length b - p - 5)
  sizes = (ground arith, length-drop p b, omega (arith, length-drop 5 (drop p b), length-drop p b))

  same_test : ltb (p + 5 + size - 4 - 1) (length b) ≡ not (ltb (length rest) (size - 4))
  same_test = ground (arith, sizes, enough)

  full_last :
      ltb (length rest) (size - 4) ≡ false → length (take 1 (drop (p + 5 + size - 4 - 1) b)) ≡ 1
  full_last whole = (==_iff _ 1).0 (last_test b (p + 5 + size - 4 - 1) ∙ same_test ∙ ap not whole)

  -- Behind the last byte stands what is behind the message.
  behind :
      ltb (length rest) (size - 4) ≡ false
      → drop (p + 5 + size - 4 - 1 + 1) b ≡ drop (size - 4) rest
  behind whole =
      sym (drop-drop (size - 4) (p + 5) (p + 5 + size - 4 - 1 + 1) b (ground (arith, sizes)))
      ∙ ap (λ (t : Bytes). drop (size - 4) t) (sym (drop-drop 5 p (p + 5) b refl))

  round_whole :
      (again : ℕ → File → Option (Outcome ℕ)) (later : Bytes → Outcome (List Frame × Bytes))
      → ((q : ℕ)
          → length (drop q b) < length (drop p b)
          → again (n + 1) (record { bytes = b; pos = q })
            ≡ some (add_count (n + 1) (count_of (later (drop q b)))))
      → (if length (take 1 (drop (p + 5 + size - 4 - 1) b)) == 1
          then again (n + 1) (record {
            bytes = b;
            pos = p + 5 + size - 4 - 1 + length (take 1 (drop (p + 5 + size - 4 - 1) b));
          })
          else some (ok n))
        ≡ some (
            add_count n (
              count_of (
                take_more later (drop p b) (
                  if ltb (length (take (size - 4) rest)) (size - 4)
                  then ok none
                  else ok (some ((typ, take (size - 4) rest), drop (size - 4) rest))))))
  unfolding take_more
  round_whole again later ih = elim (Bool-cases (ltb (length rest) (size - 4))) [
    | inl short ↦
        rw (last_test b (p + 5 + size - 4 - 1), take_test (size - 4) rest, same_test, short)
          (unfold count_of in ap (λ (k : ℕ). some (ok k)) (omega arith))
    | inr whole ↦ rw (
      full_last whole,
      take_test (size - 4) rest,
      whole,
      ih (p + 5 + size - 4 - 1 + 1) (
          omega (
            arith,
            ap (λ (t : Bytes). length t) (behind whole),
            length-drop (size - 4) rest,
            sizes,
            enough,
          )),
      behind whole,
      count_more n (typ, take (size - 4) rest) (later (drop (size - 4) rest)),
    )
  ]

count_round_lem :
    (b : Bytes) (p q n : ℕ) (header : Option (ℕ × ℕ)) (again : ℕ → File → Option (Outcome ℕ))
    (later : Bytes → Outcome (List Frame × Bytes))
    → read_header (drop p b) ≡ header
    → q ≡ p + length (take 5 (drop p b))
    → ((q : ℕ)
        → length (drop q b) < length (drop p b)
        → again (n + 1) (record { bytes = b; pos = q })
          ≡ some (add_count (n + 1) (count_of (later (drop q b)))))
    → count_round again n header (record { bytes = b; pos = q })
      ≡ some (
          add_count n
            (count_of (take_more later (drop p b) (take_parts header (drop 5 (drop p b))))))
unfolding count_round take_parts read_bytes seek
count_round_lem b p q n none again later e at' ih =
    unfold take_more count_of in ap (λ (k : ℕ). some (ok k)) (omega arith)
count_round_lem b p q n (some (typ, size)) again later e at' ih =
    let enough = read_header-some (drop p b) (typ, size) e in
    let q5 : q ≡ p + 5 = omega (arith, at', length-take 5 (drop p b) enough) in
    rw q5 (elim (Bool-cases (ltb size 4)) [
      | inl small ↦ rw small (unfold take_more count_of in refl)
      | inr big ↦ rw big (round_whole b p size n 0 typ big enough again later ih)
    ])

nil_of_length : (xs : Bytes) → length xs ≤ 0 → xs ≡ []
nil_of_length [] h = refl
nil_of_length (x ∷ xs) h = absurd (omega arith)

add_count-zero : (t : Outcome ℕ) → add_count 0 t ≡ t
add_count-zero (raise e) = refl
add_count-zero (ok k) = ap ok (omega arith)

count_loop_lem :
    (fuel num n : ℕ) (b : Bytes) (p : ℕ)
    → length (drop p b) < fuel
    → length (drop p b) ≤ num
    → count_loop fuel n (record { bytes = b; pos = p })
      ≡ some (add_count n (count_of (take_messages num (drop p b))))
unfolding count_loop take_messages take_message read_bytes
count_loop_lem zero num n b p f g = absurd (omega arith)
count_loop_lem (suc fuel) zero n b p f g =
    rw (nil_of_length (drop p b) g)
      (unfold count_round read_header count_of in ap (λ (k : ℕ). some (ok k)) (omega arith))
count_loop_lem (suc fuel) (suc num) n b p f g = rw (read_header-take (drop p b)) (
    count_round_lem b p _ n (read_header (drop p b)) _ (λ w. take_messages num w) refl refl
      (λ q less. count_loop_lem fuel num (n + 1) b q (omega arith) (omega arith)))

-- `__len__` ends, and returns the number of messages that a `read` of all messages would return;
-- it raises where that would.
pub message_count_lem :
    (num : ℕ) (s : MessageStream)
    → length (pending s) ≤ num
    → message_count s ≡ some (count_of (take_messages num (pending s)))
unfolding message_count pending seek
message_count_lem num s h =
    count_loop_lem (suc (length s.file.bytes)) num 0 s.file.bytes s.start
      (omega (arith, length-drop s.start s.file.bytes)) h
    ∙ ap some (add_count-zero (count_of (take_messages num (drop s.start s.file.bytes))))
