-- ===== src/Copyman/Realign.antt =====
-- `realign` of `ProtocolProducer` (copyman.py): after an interruption, what is given back to the
-- producer's connection, and what the receivers are given to get to the end of a message.
use pg_cluster.Base.{
  Bytes, Outcome, [], drop, length, none, ok, replicate, some, suc, zero, ◌++◌, ◌+◌, ◌-◌, ◌>>=◌,
  ◌∷◌,
}
use pg_cluster.Base.Int.{negsuc, pos, ℤ}
use pg_cluster.Copyman.Wire.{WireState, getlen}
use pg_cluster.Struct.{ulong_pack}

-- `ljust(3, b'\x00')`
unfoldable pub ljust3 : Bytes → Bytes
ljust3 f = f ++ replicate (3 - length f) 0

-- In a header: the size that it is given, without what was sent of it, and a body of zeros.
unfoldable pub pad_header : Bytes → Bytes
pad_header f =
    let header = ljust3 f ++ 4 ∷ [] in drop (length f) header ++ replicate (getlen header - 4) 0

unfoldable pub realign_body : ℤ → Outcome (Bytes × Bytes)
realign_body (pos zero) = ok ([], [])
realign_body (pos (suc r)) = do size ← ulong_pack (suc r + 4); ok (b'd' ∷ size, replicate (suc r) 0)
realign_body (negsuc k) = ok ([], [])

unfoldable pub realign_open : WireState → ℤ → Outcome (Bytes × Bytes)
realign_open w (negsuc zero) = ok (b'd' ∷ w.size_fragment, pad_header w.size_fragment)
realign_open w r = realign_body r

unfoldable pub realign_view : WireState → Bytes → Outcome (Bytes × Bytes)
realign_view w [] = realign_open w w.remaining_bytes
realign_view w (b ∷ v) = ok (b ∷ v, [])

-- What `recover` is given, and what the receivers are given: the final view, if there is one that is
-- not empty.
unfoldable pub realign : WireState → Outcome (Bytes × Bytes)
realign w = elim w.final_view [
  | none ↦ realign_open w w.remaining_bytes
  | some v ↦ realign_view w v
]
