-- ===== src/Xact/Shortcut.antt =====
-- The short ways `put_copydata` and `put_tupledata` against `standard_put`.
use pg_cluster.Base.{
  ==-refl, All, Bytes, List, Outcome, [], append-nil, append_assoc, arith, bind_returns, false,
  get_elem?, length, map, none, ok, refl, some, suc, traverse, true, ℕ, ◌++◌, ◌+◌, ◌==◌, ◌∷◌, ◌≡◌,
}
use pg_cluster.Buffer.Stream.{Frame}
use pg_cluster.Element.Message.{Message}
use pg_cluster.Xact.Fast.{bodies_of, last_type, take_whole}
use pg_cluster.Xact.Hook.{Edge, find_edge}
use pg_cluster.Xact.Instruction.{Instruction, Position, Processed, State, raw}
use pg_cluster.Xact.Placed.{HasTable, get_below}
use pg_cluster.Xact.Put.{
  Loop, after_loop, apply_path, breaks, continues, current_edges, end_put, finish_put, is_last,
  last_of, may_switch, push_completed, put_all, put_at, put_edges, put_message, put_valid, run_put,
  standard_put, start_put, switch_by, switch_state,
}

-- The loop at a step of a table.
abbrev at_step : Instruction → ℕ → ℕ → Message → List (List Edge) → List Processed → ℕ → Loop
at_step s offset step m rows ps n = record {
  self = s;
  offset = offset;
  current_step = step;
  cmd = m;
  paths = some rows;
  processed = ps;
  count = n;
}

put_message_stays :
    (s : Instruction) (offset step : ℕ) (m : Message) (rows : List (List Edge))
    (ps : List Processed) (n : ℕ) (t : ℕ) (v : Bytes) (es : List Edge) (e : Edge) (r : Processed)
    → get_elem? rows step ≡ some es
    → find_edge t es ≡ some e
    → e.next_step ≡ some step
    → apply_path e.path v ≡ ok r
    → put_message (at_step s offset step m rows ps n) (t, v)
      ≡ continues (at_step s offset step m rows (ps ++ r ∷ []) (n + 1))
unfolding put_message current_edges put_edges put_at put_valid
put_message_stays s offset step m rows ps n t v es e r here found next made =
    rw (current_edges, here, found, next, made) refl

module _ (s : Instruction) (offset step : ℕ) (m : Message) (rows : List (List Edge))
    (es : List Edge) (t : ℕ) (e : Edge) (here : get_elem? rows step ≡ some es)
    (found : find_edge t es ≡ some e) (next : e.next_step ≡ some step) where
  put_all_stays :
      (xs : List Frame) (made ps : List Processed) (n : ℕ)
      → All (λ (x : Frame). x.0 ≡ t) xs
      → traverse (apply_path e.path) (map (λ (x : Frame). x.1) xs) ≡ ok made
      → put_all (continues (at_step s offset step m rows ps n)) xs
        ≡ breaks (at_step s offset step m rows (ps ++ made) (n + length xs))
  unfolding put_all traverse
  put_all_stays [] made ps n h q =
      let none_made : made ≡ [] = cc in
      let zero_more : n + 0 ≡ n = omega arith in rw (none_made, append-nil ps, zero_more) refl
  put_all_stays ((u, v) ∷ xs) made ps n h q =
      let (r, p1, q1) = bind_returns (apply_path e.path v) _ q in
      let (rs, p2, q2) =
        bind_returns (traverse (apply_path e.path) (map (λ (x : Frame). x.1) xs)) _ q1 in
      let one = put_message_stays s offset step m rows ps n t v es e r here found next p1 in
      let later = put_all_stays xs rs (ps ++ r ∷ []) (n + 1) h.1 p2 in
      let made_lem : made ≡ r ∷ rs = cc in
      let count : n + suc (length xs) ≡ n + 1 + length xs = omega arith in
      rw (h.0, put_all, one, later, made_lem, append_assoc ps (r ∷ []) rs, count) refl

pub bodies_of-All :
    (t : ℕ) (xs : List Frame)
    → All (λ (x : Frame). x.0 ≡ t) xs
    → bodies_of t xs ≡ map (λ (x : Frame). x.1) xs
unfolding bodies_of
bodies_of-All t [] h = refl
bodies_of-All t ((u, v) ∷ xs) h = rw (h.0, ==-refl t, bodies_of-All t xs h.1) refl

pub last_type-All :
    (t : ℕ) (x : Frame) (xs : List Frame)
    → All (λ (y : Frame). y.0 ≡ t) (x ∷ xs)
    → last_type (x ∷ xs) ≡ some t
unfolding last_type
last_type-All t x [] h = rw h.0 refl
last_type-All t x (y ∷ xs) h = last_type-All t y xs h.1

pub traverse_raw : (vs : List Bytes) → traverse (apply_path none) vs ≡ ok (map raw vs)
unfolding traverse apply_path
traverse_raw [] = refl
traverse_raw (v ∷ vs) = rw (traverse_raw vs) refl

pub same_fields :
    (s : Instruction) (st : State) (le : Position)
    → s.state ≡ st
    → s.last_end ≡ le
    → s ≡ record s { state = st; last_end = le }
same_fields s st le p r = λ i. record s { state = p i; last_end = r i }

-- The result, without the record of asynchronous messages
abbrev pub emptied : Outcome ℕ × Instruction → Outcome ℕ × Instruction
emptied (n, u) = (n, record u { asyncs = [] })

-- A list that only takes one edge from a step to itself leaves the transaction at that step.
pub put_stays :
    (s : Instruction) (i offset step : ℕ) (m : Message) (rows : List (List Edge)) (es : List Edge)
    (t : ℕ) (e : Edge) (xs : List Frame) (made : List Processed) (r : Processed) (st : State)
    → get_elem? rows step ≡ some es
    → find_edge t es ≡ some e
    → e.next_step ≡ some step
    → is_last i s.last_messages ≡ false
    → get_elem? s.commands offset ≡ some m
    → HasTable m rows
    → may_switch m ≡ true
    → All (λ (x : Frame). x.0 ≡ t) xs
    → traverse (apply_path e.path) (map (λ (x : Frame). x.1) xs) ≡ ok made
    → last_of made ≡ some r
    → ((u : Instruction) → switch_state r u offset ≡ record u { state = st })
    → let s0 = record s { state = st; last_end = (offset, step) } in
      standard_put i xs s0 ≡ emptied (ok (length xs), take_whole i made s0)
unfolding standard_put run_put take_whole start_put push_completed end_put finish_put after_loop
    switch_by
put_stays s i offset step m rows es t e xs made r st here found next fresh at table may h q last
      switches =
    let short : (offset == length s.commands) ≡ false =
      let below = get_below s.commands offset m at in ground arith in
    let s0 = record s { state = st; asyncs = []; last_end = (offset, step) } in
    let all = put_all_stays s0 offset step m rows es t e here found next xs made [] 0 h q in
    let none_more : 0 + length xs ≡ length xs = omega arith in
    rw
      (
        fresh, run_put, start_put, at, table, all, end_put, finish_put, after_loop, short, may,
        last, switch_by, switches, take_whole, none_more,
      )
      refl
