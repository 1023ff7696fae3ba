-- ===== src/Copyman/Wire.antt =====
-- The class `WireState` of copyman.py: where a stream of COPY messages was cut.
use pg_cluster.Base.{
  Bool, Bytes, Option, Outcome, [], drop, if◌then◌else◌, leb, length, ltb, none, ok, raise,
  runtime_error, some, suc, take, zero, ℕ, ◌++◌, ◌+◌, ◌-◌, ◌==◌, ◌∷◌,
}
use pg_cluster.Base.Int.{negsuc, pos, ℤ}
use pg_cluster.Struct.{ulong_unpack}

-- `remaining_bytes` is -1 within the header of a message.
pub record WireState : Type 0 where
  pub remaining_bytes : ℤ
  pub size_fragment : Bytes
  pub final_view : Option Bytes

unfoldable pub new_wire : WireState
new_wire = record { remaining_bytes = pos 0; size_fragment = []; final_view = none }

-- `getlen` of four bytes
unfoldable pub getlen : Bytes → ℕ
getlen v = elim (ulong_unpack v) [ ok n ↦ n | raise e ↦ 0 ]

-- a - b
unfoldable pub diff : ℕ → ℕ → ℤ
diff a b = if leb b a then pos (a - b) else negsuc (b - a - 1)

-- What a call of `update` ends with: the number of messages, and the state.
abbrev pub Updated : Type 0
Updated = ℕ × WireState

-- Inside a message: the view behind it, its length, what remains of the message, the messages.
unfoldable pub skip_body : Bytes → ℕ → ℕ → ℕ → Bytes × ℕ × ℕ × ℕ
skip_body view vlen zero n = (view, vlen, 0, n)
skip_body view vlen (suc r) n =
    if leb (suc r) vlen
    then (drop (suc r) view, vlen - suc r, 0, n + 1)
    else (drop (suc r) view, 0, suc r - vlen, n)

-- `if remaining_bytes == -1`: what remains, and the fragment.
unfoldable pub join_header : Bytes → Bytes → ℤ × Bytes
join_header fragment view =
    let joined = fragment ++ take (4 - length fragment) view in
    if length joined == 4 then (diff (getlen joined) (length fragment), []) else (negsuc 0, joined)

unfoldable pub enter_view : ℤ → Bytes → Bytes → ℤ × Bytes
enter_view (pos r) fragment view = (pos r, fragment)
enter_view (negsuc zero) fragment view = join_header fragment view
enter_view (negsuc (suc k)) fragment view = (negsuc (suc k), fragment)

module _ (condition : ℕ → Bool) where
  -- Between two messages: `again` is the next round, with what remains.
  unfoldable pub look : (ℕ → Updated) → Bytes → Bytes × ℕ × ℕ × ℕ → Updated
  look again fragment ([], vlen, r, n) =
      (n, record { remaining_bytes = pos r; size_fragment = fragment; final_view = none })
  look again fragment (b ∷ v, vlen, r, n) =
      if condition b
      then (
        n,
        record { remaining_bytes = pos r; size_fragment = fragment; final_view = some (b ∷ v) },
      )
      else if ltb vlen 5
      then (
        n,
        record { remaining_bytes = negsuc 0; size_fragment = fragment ++ v; final_view = none },
      )
      else again (getlen (take 4 v) + 1)

  -- `while True`; each round but the first one begins with a byte at least.
  unfoldable pub wire_loop : ℕ → Bytes → Bytes → ℕ → ℕ → ℕ → Updated
  wire_loop zero fragment view vlen r n =
      (n, record { remaining_bytes = pos r; size_fragment = fragment; final_view = none })
  wire_loop (suc fuel) fragment view vlen r n =
      let s = skip_body view vlen r n in
      look (λ more. wire_loop fuel fragment s.0 s.1 more s.3) fragment s

  -- `if remaining_bytes >= 0`
  unfoldable pub scan : ℤ → Bytes → Bytes → Updated
  scan (negsuc k) fragment view =
      (0, record { remaining_bytes = negsuc k; size_fragment = fragment; final_view = none })
  scan (pos r) fragment view = wire_loop (suc (suc (length view))) fragment view (length view) r 0

  unfoldable pub update_open : Bytes → WireState → Updated
  update_open view w =
      let (r, fragment) = enter_view w.remaining_bytes w.size_fragment view in scan r fragment view

  -- `update(view)`
  unfoldable pub update : Bytes → WireState → Outcome Updated
  update view w = elim w.final_view [
    | some v ↦ raise runtime_error
    | none ↦ ok (update_open view w)
  ]
