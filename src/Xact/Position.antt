-- ===== src/Xact/Position.antt =====
-- The positions of an `Instruction` after `standard_put`.
use pg_cluster.Base.{
  Bool-cases, List, Option, [], arith, false, get_elem?, inl, inr, length, none, ok, refl, some, ℕ,
  ◌<◌, ◌==◌, ◌≡◌, ◌⊎◌,
}
use pg_cluster.Buffer.Stream.{Frame}
use pg_cluster.Element.Message.{Message, copy_from_begin, copy_to_begin, element_of, plain_tuple}
use pg_cluster.Xact.Hook.{Edge}
use pg_cluster.Xact.Instruction.{Instruction, Position, Processed, complete_state, parsed, raw}
use pg_cluster.Xact.Placed.{HasTable, IsAt, IsPlaced}
use pg_cluster.Xact.Put.{
  Loop, Turn, after_loop, breaks, continues, end_put, fails, finish_put, is_last, may_switch,
  put_all, returns, run_put, standard_put, start_put, switch_by, switch_state,
}
use pg_cluster.Xact.Turns.{IsRunning, IsTurn, put_all-IsTurn}

-- The transaction is complete, or it has the same commands and is at a command and a step of it.
abbrev pub IsResult : Instruction → Instruction → Type 0
IsResult s t = (t.state ≡ complete_state) ⊎ ((t.commands ≡ s.commands) × IsPlaced t)

switch_state-IsResult :
    (s : Instruction) (r : Processed) (t : Instruction) (offset : ℕ)
    → (t.commands ≡ s.commands) × IsPlaced t
    → IsResult s (switch_state r t offset)
unfolding switch_state
switch_state-IsResult s (raw v) t offset h = inr h
switch_state-IsResult s (parsed (element_of (copy_to_begin f fs))) t offset h = inr h
switch_state-IsResult s (parsed (element_of (copy_from_begin f fs))) t offset h = inr h
switch_state-IsResult s (parsed (plain_tuple atts)) t offset h = inr h
switch_state-IsResult s (parsed (element_of _)) t offset h = inr h

switch_by-IsResult :
    (s : Instruction) (r : Option Processed) (t : Instruction) (offset : ℕ)
    → (t.commands ≡ s.commands) × IsPlaced t
    → IsResult s (switch_by r t offset)
unfolding switch_by
switch_by-IsResult s none t offset h = inr h
switch_by-IsResult s (some r) t offset h = switch_state-IsResult s r t offset h

after_loop-IsResult :
    (s : Instruction) (l : Loop) (t : Instruction)
    → (t.commands ≡ s.commands)
    → ((l.offset == length t.commands) ≡ false → IsPlaced t)
    → IsResult s (after_loop l t)
unfolding after_loop
after_loop-IsResult s l t same h = elim (Bool-cases (l.offset == length t.commands)) [
  | inl over ↦ rw over (inl refl)
  | inr under ↦ rw under (elim (Bool-cases (may_switch l.cmd)) [
    | inl may ↦ rw may (switch_by-IsResult s _ t l.offset (same, h under))
    | inr stays ↦ rw stays (inr (same, h under))
  ])
]

-- Short of the end of the commands, the loop ended at a command and a step of it.
ended-IsAt :
    (s : Instruction) (l : Loop)
    → (l.offset ≡ length s.commands) ⊎ IsAt s.commands (l.offset, l.current_step)
    → (l.offset == length s.commands) ≡ false
    → IsAt s.commands (l.offset, l.current_step)
ended-IsAt s l (inl e) under = absurd (ground arith)
ended-IsAt s l (inr here) under = here

finish_put-IsResult :
    (s : Instruction) (i : ℕ) (l : Loop)
    → IsPlaced s
    → IsTurn s (breaks l)
    → IsResult s (finish_put i l)
unfolding finish_put
finish_put-IsResult s i l placed ((same, start, end), ended) =
    after_loop-IsResult s l _ same
      (λ under. (rw (same, end) placed.1, rw same (ended-IsAt s l ended (rw same at under))))

end_put-IsResult :
    (s : Instruction) (i : ℕ) (t : Turn) → IsPlaced s → IsTurn s t → IsResult s (end_put i t).1
unfolding end_put
end_put-IsResult s i (continues l) placed (same, rows, here, p, table, below) =
    finish_put-IsResult s i l placed (same, inr (l.cmd, rows, here, table, below))
end_put-IsResult s i (breaks l) placed h = finish_put-IsResult s i l placed h
end_put-IsResult s i (returns t n) placed h = inl h
end_put-IsResult s i (fails e t) placed (same, start, end) =
    inr (same, rw (same, start, end) placed)

start_put_lem :
    (s : Instruction) (offset step : ℕ) (m : Message) (rows : List (List Edge))
    → get_elem? s.commands offset ≡ some m
    → HasTable m rows
    → (l : Loop) × (start_put s (offset, step) ≡ ok l) × ((step < length rows) → IsRunning s l)
unfolding start_put
start_put_lem s offset step m rows here table =
    rw (start_put, here) (_, refl, λ below. ((refl, refl, refl), rows, here, table, table, below))

run_put-IsResult :
    (s : Instruction) (i : ℕ) (messages : List Frame) (from : Position)
    → IsPlaced s
    → IsAt s.commands from
    → IsResult s (run_put i messages s (start_put s from)).1
unfolding run_put
run_put-IsResult s i messages (offset, step) placed (m, rows, here, table, below) =
    let (l, e, running) = start_put_lem s offset step m rows here table in
    rw e (
      end_put-IsResult s i (put_all (continues l) messages) placed
        (put_all-IsTurn s (continues l) messages (running below)))

-- Whatever is received, and also where a message cannot be parsed, the transaction is complete
-- afterwards, or its commands are the same and both positions are steps of the tables of commands.
pub standard_put-IsResult :
    (s : Instruction) (i : ℕ) (messages : List Frame)
    → IsPlaced s
    → IsResult s (standard_put i messages s).1
unfolding standard_put
standard_put-IsResult s i messages placed = elim (Bool-cases (is_last i s.last_messages)) [
  | inl again ↦ rw again (run_put-IsResult s i messages s.last_start placed placed.0)
  | inr fresh ↦
      rw fresh (run_put-IsResult (record s { asyncs = [] }) i messages s.last_end placed placed.1)
]
