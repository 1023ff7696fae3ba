-- ===== src/Buffer/Observe.antt =====
-- `write`, `truncate` and what `pq_message_stream` tells without reading: `getvalue`,
-- `has_message` and `__len__`.
use pg_cluster.Base.{
  Bytes, Option, [], ap, append-nil, arith, drop, drop-append_le, drop-nil, if◌then◌else◌, leb,
  length, length-append, length-drop, ltb, none, ok, raise, refl, some, suc, sym, take, take-length,
  value_error, zero, ℕ, ◌++◌, ◌+◌, ◌-◌, ◌∷◌, ◌≡◌, ◌≤◌,
}
use pg_cluster.Buffer.File.{read_bytes, seek, seek_end, truncate_file, write_bytes}
use pg_cluster.Buffer.Refine.{read_header-some, read_header-take}
use pg_cluster.Buffer.Spec.{IsStream, Rest, has_of, pending, take_message, take_parts}
use pg_cluster.Buffer.Stream.{
  MessageStream, clear, getvalue, has_message, has_parts, read_header, write,
}

take_long : (n : ℕ) (xs : Bytes) → length xs ≤ n → take n xs ≡ xs
take_long zero [] h = refl
take_long zero (x ∷ xs) h = absurd (omega arith)
take_long (suc n) [] h = refl
take_long (suc n) (x ∷ xs) h = ap (λ t. x ∷ t) (take_long n xs (omega arith))

pub drop_long : (n : ℕ) (xs : Bytes) → length xs ≤ n → drop n xs ≡ []
drop_long n [] h = drop-nil n
drop_long zero (x ∷ xs) h = absurd (omega arith)
drop_long (suc n) (x ∷ xs) h = drop_long n xs (omega arith)

pub take_test : (k : ℕ) (xs : Bytes) → ltb (length (take k xs)) k ≡ ltb (length xs) k
take_test zero xs = ground arith
take_test (suc k) [] = ground arith
take_test (suc k) (x ∷ xs) = ground (arith, take_test k xs)

write_bytes-end :
    (v b : Bytes) → (write_bytes v (record { bytes = b; pos = length b })).bytes ≡ b ++ v
unfolding write_bytes
write_bytes-end [] b = sym (append-nil b)
write_bytes-end (x ∷ v) b =
    let none_missing : length b - length b ≡ 0 = omega arith in
    rw (
      take-length b,
      none_missing,
      drop_long (length b + suc (length v)) b (omega arith),
      append-nil v,
    )

-- `write` adds the data behind the pending bytes, wherever the file's position was.
pub pending-write :
    (v : Bytes) (s : MessageStream)
    → IsStream s
    → (pending (write v s) ≡ pending s ++ v) × IsStream (write v s)
unfolding write pending seek_end
pending-write v s h =
    rw (write_bytes-end v s.file.bytes)
      (drop-append_le s.start s.file.bytes v h, omega (arith, length-append s.file.bytes v))

-- `getvalue` returns the pending bytes.
pub getvalue-eq-pending : (s : MessageStream) → getvalue s ≡ pending s
unfolding getvalue pending read_bytes seek
getvalue-eq-pending s =
    take_long (length s.file.bytes) (drop s.start s.file.bytes)
      (omega (arith, length-drop s.start s.file.bytes))

-- After `truncate` nothing is pending.
pub pending-clear : (s : MessageStream) → (pending (clear s) ≡ []) × IsStream (clear s)
unfolding pending clear truncate_file
pending-clear s = (refl, omega arith)

has_test :
    (size left : ℕ) (rest : Bytes) (r : Rest)
    → length rest ≡ left - 5
    → 5 ≤ left
    → (if ltb size 4 then raise value_error else ok (leb (size + 1) left))
      ≡ has_of (
          if ltb size 4
          then raise value_error
          else if ltb (length (take (size - 4) rest)) (size - 4)
          then ok none
          else ok (some r))
unfolding has_of
has_test size left rest r e h = rw (take_test (size - 4) rest) (ground arith)

has_parts_lem :
    (s : MessageStream) (header : Option (ℕ × ℕ))
    → IsStream s
    → read_header (pending s) ≡ header
    → has_parts header s ≡ has_of (take_parts header (drop 5 (pending s)))
unfolding has_parts has_of take_parts seek_end
has_parts_lem s none h e = refl
has_parts_lem s (some (typ, size)) h e =
    has_test size (length s.file.bytes - s.start) (drop 5 (pending s)) _
      (omega (arith, length-drop 5 (pending s), pending_length))
      (omega (arith, read_header-some (pending s) (typ, size) e, pending_length))
  where
    pending_length : length (pending s) ≡ length s.file.bytes - s.start
    pending_length = unfold pending in length-drop s.start s.file.bytes

-- `has_message` tells whether `next_message` would return a message, and raises where that would.
pub has_message_lem :
    (s : MessageStream) → IsStream s → has_message s ≡ has_of (take_message (pending s))
unfolding has_message take_message read_bytes seek pending
has_message_lem s h =
    rw (read_header-take (drop s.start s.file.bytes))
      (has_parts_lem s (read_header (drop s.start s.file.bytes)) h (unfold pending in refl))
