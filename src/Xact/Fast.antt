-- ===== src/Xact/Fast.antt =====
-- The short ways of `Instruction` for COPY lines and rows: `put_copydata`, and `put_tupledata`
-- where the C function is not there.
use pg_cluster.Base.{
  Bytes, List, Option, Outcome, [], if◌then◌else◌, index_error, length, map, none, ok, raise, some,
  traverse, ℕ, ◌==◌, ◌∷◌,
}
use pg_cluster.Buffer.Stream.{Frame}
use pg_cluster.Element.Class.{Class}
use pg_cluster.Xact.Instruction.{Instruction, Processed, raw, receiving_standard}
use pg_cluster.Xact.Put.{apply_path, push_completed, standard_put}

-- `messages[-1][0]`
unfoldable pub last_type : List Frame → Option ℕ
last_type [] = none
last_type (x ∷ []) = some x.0
last_type (x ∷ y ∷ xs) = last_type (y ∷ xs)

-- `[x[1] for x in messages if x[0] == t]`
unfoldable pub bodies_of : ℕ → List Frame → List Bytes
bodies_of t [] = []
bodies_of t ((u, v) ∷ xs) = let rest = bodies_of t xs in if u == t then v ∷ rest else rest

-- The list is taken as a whole: it is completed, and the position stays.
unfoldable pub take_whole : ℕ → List Processed → Instruction → Instruction
take_whole i ps s = record s {
  completed = push_completed i ps s.completed;
  last_messages = some i;
  last_start = s.last_end;
}

-- The return to `standard_put`
unfoldable pub give_up : ℕ → List Frame → Instruction → Outcome ℕ × Instruction
give_up i messages s = standard_put i messages (record s { state = receiving_standard })

unfoldable pub put_lines : ℕ → List Frame → List Bytes → Instruction → Outcome ℕ × Instruction
put_lines i messages copied s =
    if length copied == length messages
    then (ok (length messages), take_whole i (map raw copied) s)
    else give_up i messages s

-- `put_copydata`; `messages[-1]` of no messages is an IndexError.
unfoldable pub put_copydata : ℕ → List Frame → Instruction → Outcome ℕ × Instruction
put_copydata i messages s = elim (last_type messages) [
  | none ↦ (raise index_error, s)
  | some t ↦
      if t == b'd' then put_lines i messages (bodies_of b'd' messages) s else give_up i messages s
]

unfoldable pub put_tuples :
    ℕ → List Frame → Outcome (List Processed) → Instruction → Outcome ℕ × Instruction
put_tuples i messages (raise e) s = (raise e, s)
put_tuples i messages (ok tuples) s =
    if length tuples == length messages
    then (ok (length messages), take_whole i tuples s)
    else give_up i messages s

-- `put_tupledata`
unfoldable pub put_tupledata : ℕ → List Frame → Instruction → Outcome ℕ × Instruction
put_tupledata i messages s = elim (last_type messages) [
  | none ↦ (raise index_error, s)
  | some t ↦
      if t == b'D'
      then put_tuples i messages
          (traverse (apply_path (some Class.tuple)) (bodies_of b'D' messages)) s
      else give_up i messages s
]
