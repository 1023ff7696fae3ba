-- ===== src/Buffer/Spec.antt =====
-- What the message stream of protocol/pbuffer.py promises, over the bytes that are still to be
-- read, with no file and no positions.
use pg_cluster.Base.{
  Bool, Bytes, List, Option, Outcome, [], drop, false, if◌then◌else◌, length, ltb, none, ok, raise,
  some, suc, take, true, value_error, zero, ℕ, ◌-◌, ◌>>=◌, ◌∷◌, ◌≤◌,
}
use pg_cluster.Buffer.Stream.{Frame, MessageStream, read_header}

abbrev pub Rest : Type 0
Rest = Frame × Bytes

-- The first message of the bytes, and what is behind it.
unfoldable pub take_parts : Option (ℕ × ℕ) → Bytes → Outcome (Option Rest)
take_parts none rest = ok none
take_parts (some (typ, size)) rest =
    if ltb size 4
    then raise value_error
    else if ltb (length (take (size - 4) rest)) (size - 4)
    then ok none
    else ok (some ((typ, take (size - 4) rest), drop (size - 4) rest))

unfoldable pub take_message : Bytes → Outcome (Option Rest)
take_message v = take_parts (read_header v) (drop 5 v)

-- The messages at the front, `num` at most, and what is behind them.
unfoldable pub take_more :
    (Bytes → Outcome (List Frame × Bytes))
    → Bytes
    → Outcome (Option Rest)
    → Outcome (List Frame × Bytes)
take_more again v (raise e) = raise e
take_more again v (ok none) = ok ([], v)
take_more again v (ok (some (m, rest))) = do (ms, end) ← again rest; ok (m ∷ ms, end)

unfoldable pub take_messages : ℕ → Bytes → Outcome (List Frame × Bytes)
take_messages zero v = ok ([], v)
take_messages (suc num) v = take_more (λ w. take_messages num w) v (take_message v)

-- `next_message` on the bytes: the result, and the bytes that are left.
unfoldable pub next_of : Bytes → Outcome (Option Rest) → Outcome (Option Frame) × Bytes
next_of v (raise e) = (raise e, v)
next_of v (ok none) = (ok none, v)
next_of v (ok (some (m, rest))) = (ok (some m), rest)

-- `read` on the bytes.
unfoldable pub read_of : Bytes → Outcome (List Frame × Bytes) → Outcome (List Frame) × Bytes
read_of v (raise e) = (raise e, v)
read_of v (ok (ms, rest)) = (ok ms, rest)

-- `has_message` on the bytes.
unfoldable pub has_of : Outcome (Option Rest) → Outcome Bool
has_of (raise e) = raise e
has_of (ok none) = ok false
has_of (ok (some r)) = ok true

-- `__len__` on the bytes.
unfoldable pub count_of : Outcome (List Frame × Bytes) → Outcome ℕ
count_of (raise e) = raise e
count_of (ok (ms, rest)) = ok (length ms)

-- The bytes that a stream still holds, and the invariant of its state.
unfoldable pub pending : MessageStream → Bytes
pending s = drop s.start s.file.bytes

abbrev pub IsStream : MessageStream → Type 0
IsStream s = s.start ≤ length s.file.bytes
