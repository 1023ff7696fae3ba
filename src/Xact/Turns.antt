-- ===== src/Xact/Turns.antt =====
-- One turn of the loop of `standard_put`, and the loop.
-- The transaction that the loop has differs from the one it began with in no position.
use pg_cluster.Base.{
  Bool-cases, Bytes, List, Option, Option-cases, Outcome, [], arith, drop, false, get_elem?, inl,
  inr, length, ltb→lt, none, ok, raise, refl, some, some_inj, suc, sym, true, zero, ℕ, ◌+◌, ◌<◌,
  ◌==◌, ◌∙◌, ◌∷◌, ◌≡◌, ◌⊎◌,
}
use pg_cluster.Buffer.Stream.{Frame}
use pg_cluster.Element.Message.{Items, Message, Parsed, element_of, plain_tuple, ready}
use pg_cluster.Element.Wire.{parse}
use pg_cluster.Xact.Hook.{Edge, asynchronous, find_edge}
use pg_cluster.Xact.Instruction.{Instruction, Processed, complete_state, parsed, raw}
use pg_cluster.Xact.Placed.{
  HasTable, IsAt, IsNext, IsSync, find_sync_lem, get_below, next_command_lem,
}
use pg_cluster.Xact.Put.{
  Loop, Turn, after_command, after_sync, breaks, continues, current_edges, fails, frame_in,
  implies_sync, is_fatal, note_ready, put_all, put_async, put_at, put_edges, put_error, put_message,
  put_unexpected, put_valid, put_violation, returns, sync_up,
}
use pg_cluster.Xact.Table.{edge_below, leads_below, paths_of-IsTable, row_below}

abbrev pub IsSame : Instruction → Instruction → Type 0
IsSame s t = (t.commands ≡ s.commands) × (t.last_start ≡ s.last_start) × (t.last_end ≡ s.last_end)

abbrev pub IsRunning : Instruction → Loop → Type 0
IsRunning s l =
    IsSame s l.self
    × (rows : List (List Edge)) × (get_elem? s.commands l.offset ≡ some l.cmd)
    × (l.paths ≡ some rows)
    × HasTable l.cmd rows
    × (l.current_step < length rows)

abbrev pub IsTurn : Instruction → Turn → Type 0
IsTurn s (continues l) = IsRunning s l
IsTurn s (breaks l) =
    IsSame s l.self × ((l.offset ≡ length s.commands) ⊎ IsAt s.commands (l.offset, l.current_step))
IsTurn s (returns t n) = t.state ≡ complete_state
IsTurn s (fails e t) = IsSame s t

after_sync-IsTurn :
    (s : Instruction) (l : Loop) (t : Instruction) (o : Option (ℕ × Message))
    → IsSame s t
    → IsSync s.commands o
    → IsTurn s (after_sync l t o)
unfolding after_sync
after_sync-IsTurn s l t none h k = refl
after_sync-IsTurn s l t (some (offset, cmd)) h (p, rows, table) =
    (h, rows, p, table, table, (paths_of-IsTable cmd rows table).0)

sync_up_lem : (s : Instruction) (l : Loop) → IsRunning s l → IsSync s.commands (sync_up l)
unfolding sync_up
sync_up_lem s l (same, rows, here, p, table, below) = elim (Bool-cases (implies_sync l.cmd)) [
  | inl implied ↦ rw implied (here, rows, table)
  | inr other ↦
      rw other (rw same.0 (find_sync_lem s.commands (drop l.offset s.commands) l.offset refl))
]

put_error-IsTurn :
    (s : Instruction) (l : Loop) (em : Items) (o : Outcome Bytes)
    → IsRunning s l
    → IsTurn s (put_error l em o)
unfolding put_error
put_error-IsTurn s l em (raise e) h = h.0
put_error-IsTurn s l em (ok severity) h = elim (Bool-cases (is_fatal severity)) [
  | inl bad ↦ rw bad refl
  | inr mild ↦ rw mild (after_sync-IsTurn s l _ (sync_up l) h.0 (sync_up_lem s l h))
]

put_async-IsTurn :
    (s : Instruction) (l : Loop) (x : Frame) (o : Outcome Parsed)
    → IsRunning s l
    → IsTurn s (put_async l x o)
unfolding put_async
put_async-IsTurn s l x o h = elim (Bool-cases (frame_in x l.self.asyncs)) [
  | inl seen ↦ known o seen
  | inr fresh ↦ unseen o fresh
]
  where
    known : (o : Outcome Parsed) → frame_in x l.self.asyncs ≡ true → IsTurn s (put_async l x o)
    known (raise e) seen = rw seen h
    known (ok m) seen = rw seen h

    unseen : (o : Outcome Parsed) → frame_in x l.self.asyncs ≡ false → IsTurn s (put_async l x o)
    unseen (raise e) fresh = rw fresh h.0
    unseen (ok m) fresh = rw fresh h

put_unexpected-IsTurn :
    (s : Instruction) (l : Loop) (es : List Edge) (x : Frame)
    → IsRunning s l
    → IsTurn s (put_unexpected l es x)
unfolding put_unexpected put_violation
put_unexpected-IsTurn s l es (t, v) h = elim (Bool-cases (t == b'E')) [
  | inl fault ↦ rw fault (put_error-IsTurn s l _ _ h)
  | inr other ↦ rw other (elim (Option-cases (asynchronous t)) [
    | inl strange ↦ rw strange refl
    | inr (c, known) ↦ rw known (put_async-IsTurn s l (t, v) (parse c v) h)
  ])
]

note_ready-IsSame : (s t : Instruction) (r : Processed) → IsSame s t → IsSame s (note_ready r t)
unfolding note_ready
note_ready-IsSame s t (parsed (element_of (ready b))) h = h
note_ready-IsSame s t (parsed (element_of _)) h = h
note_ready-IsSame s t (parsed (plain_tuple atts)) h = h
note_ready-IsSame s t (raw v) h = h

after_command-IsTurn :
    (s : Instruction) (l : Loop) (o : ℕ × Option Message)
    → IsSame s l.self
    → IsNext s.commands o
    → IsTurn s (after_command l o)
unfolding after_command
after_command-IsTurn s l (offset, none) h e = (h, inl e)
after_command-IsTurn s l (offset, some cmd) h (p, rows, table) =
    (h, rows, p, table, table, (paths_of-IsTable cmd rows table).0)

put_valid-IsTurn :
    (s : Instruction) (l : Loop) (n : Option ℕ) (o : Outcome Processed)
    → IsRunning s l
    → ((k : ℕ) (rows : List (List Edge)) → n ≡ some k → l.paths ≡ some rows → k < length rows)
    → IsTurn s (put_valid l n o)
unfolding put_valid
put_valid-IsTurn s l n (raise e) h k = h.0
put_valid-IsTurn s l (some n) (ok r) (same, rows, here, p, table, below) k =
    (same, rows, here, p, table, k n rows refl p)
put_valid-IsTurn s l none (ok r) (same, rows, here, p, table, below) k =
    let inside = get_below s.commands l.offset l.cmd here in
    let next =
      next_command_lem s.commands (drop (l.offset + 1) s.commands) (l.offset + 1)
        (omega (arith, inside)) refl in
    after_command-IsTurn s _ _ (note_ready-IsSame s l.self r same) (rw same.0 next)

-- A step of the table that is there.
get_some :
    (rows : List (List Edge)) (k : ℕ)
    → k < length rows
    → (es : List Edge) × (get_elem? rows k ≡ some es)
get_some [] k h = absurd (omega arith)
get_some (r ∷ rows) zero h = (r, refl)
get_some (r ∷ rows) (suc k) h = get_some rows k (omega arith)

current_edges_lem :
    (l : Loop) (rows : List (List Edge)) (es : List Edge)
    → l.paths ≡ some rows
    → get_elem? rows l.current_step ≡ some es
    → current_edges l ≡ ok es
unfolding current_edges
current_edges_lem l rows es p q = rw (p, current_edges, q) refl

leads_lem : (n k : ℕ) (e : Edge) → leads_below n e ≡ true → e.next_step ≡ some k → k < n
unfolding leads_below
leads_lem n k e h q = ltb→lt k n (rw q at h)

-- The loop is not left because a step is missing.
put_message-IsTurn :
    (s : Instruction) (l : Loop) (x : Frame) → IsRunning s l → IsTurn s (put_message l x)
unfolding put_message put_edges put_at current_edges
put_message-IsTurn s l (t, v) h =
    let (same, rows, here, p, table, below) = h in
    let (es, q) = get_some rows l.current_step below in
    let (some_step, closed) = paths_of-IsTable l.cmd rows table in
    let edges = row_below (length rows) l.current_step rows es closed q in
    rw (current_edges_lem (record l { count = l.count + 1 }) rows es p q)
      (elim (Option-cases (find_edge t es)) [
        | inl absent ↦
            rw absent (put_unexpected-IsTurn s (record l { count = l.count + 1 }) es (t, v) h)
        | inr (e, found) ↦ rw found (
            put_valid-IsTurn s (record l { count = l.count + 1 }) e.next_step _ h
              (λ k rows' to p'.
                rw (some_inj rows rows' (sym p ∙ p')) at
                  (leads_lem (length rows) k e (edge_below (length rows) t es e edges found) to)))
      ])

pub put_all-IsTurn :
    (s : Instruction) (t : Turn) (xs : List Frame) → IsTurn s t → IsTurn s (put_all t xs)
unfolding put_all
put_all-IsTurn s (continues l) [] (same, rows, here, p, table, below) =
    (same, inr (l.cmd, rows, here, table, below))
put_all-IsTurn s (continues l) (x ∷ xs) h =
    put_all-IsTurn s (put_message l x) xs (put_message-IsTurn s l x h)
put_all-IsTurn s (breaks l) xs h = h
put_all-IsTurn s (returns t n) xs h = h
put_all-IsTurn s (fails e t) xs h = h
