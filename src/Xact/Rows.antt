-- ===== src/Xact/Rows.antt =====
-- `put_tupledata` against `standard_put`, on lists of rows that can be parsed.
use pg_cluster.Base.{
  ==-refl, All, Bytes, List, Outcome, [], ap, bind_returns, false, get_elem?, inl, inr, length, map,
  none, ok, raise, refl, some, suc, sym, traverse, true, ℕ, ◌>>=◌, ◌∙◌, ◌∷◌, ◌≡◌, ◌⊎◌,
}
use pg_cluster.Buffer.Stream.{Frame}
use pg_cluster.Element.Backend.{parse_tuple}
use pg_cluster.Element.Class.{Class}
use pg_cluster.Element.Message.{Datum, Message, plain_tuple}
use pg_cluster.Element.Wire.{as_tuple, parse}
use pg_cluster.Xact.Copying.{length-map}
use pg_cluster.Xact.Fast.{put_tupledata, put_tuples, take_whole}
use pg_cluster.Xact.Hook.{Edge, edge, execute_steps, find_edge, hook, query_steps}
use pg_cluster.Xact.Instruction.{Instruction, Processed, command_type, parsed, receiving_tupledata}
use pg_cluster.Xact.Placed.{HasTable}
use pg_cluster.Xact.Put.{
  apply_path, is_last, last_of, may_switch, paths_of, standard_put, switch_state,
}
use pg_cluster.Xact.Shortcut.{bodies_of-All, emptied, last_type-All, put_stays, same_fields}

apply_tuple :
    (v : Bytes) (r : Processed)
    → apply_path (some Class.tuple) v ≡ ok r
    → (atts : List Datum) × (r ≡ parsed (plain_tuple atts))
unfolding apply_path parse as_tuple
apply_tuple v r h = by_parse (parse_tuple v) h
  where
    by_parse :
        (o : Outcome (List Datum))
        → (as_tuple o >>= λ m. ok (parsed m)) ≡ ok r
        → (atts : List Datum) × (r ≡ parsed (plain_tuple atts))
    by_parse (ok atts) h = (atts, cc)
    by_parse (raise e) h = absurd cc

last_of-cons :
    (r : Processed) (rs : List Processed) (z : Processed)
    → last_of rs ≡ some z
    → last_of (r ∷ rs) ≡ some z
unfolding last_of
last_of-cons r [] z e = cc
last_of-cons r (y ∷ ys) z e = e

last_row :
    (v : Bytes) (vs : List Bytes) (made : List Processed)
    → traverse (apply_path (some Class.tuple)) (v ∷ vs) ≡ ok made
    → (atts : List Datum) × (last_of made ≡ some (parsed (plain_tuple atts)))
unfolding traverse last_of
last_row v [] made h =
    let (r, p, q) = bind_returns (apply_path (some Class.tuple) v) _ h in
    let one : made ≡ r ∷ [] = cc in let (atts, e) = apply_tuple v r p in (atts, rw one (ap some e))
last_row v (w ∷ vs) made h =
    let (r, p, q) = bind_returns (apply_path (some Class.tuple) v) _ h in
    let (rs, p1, q1) = bind_returns (traverse (apply_path (some Class.tuple)) (w ∷ vs)) _ q in
    let more : made ≡ r ∷ rs = cc in
    let (atts, e) = last_row w vs rs p1 in
    (atts, rw more (last_of-cons r rs (parsed (plain_tuple atts)) e))

length-traverse {ℓ κ} :
    {A : Type ℓ} {B : Type κ} (f : A → Outcome B) (xs : List A) (ys : List B)
    → traverse f xs ≡ ok ys
    → length ys ≡ length xs
unfolding traverse
length-traverse f [] ys h = let none_made : ys ≡ [] = cc in rw none_made refl
length-traverse f (x ∷ xs) ys h =
    let (r, p, q) = bind_returns (f x) _ h in
    let (rs, p1, q1) = bind_returns (traverse f xs) _ q in
    let made : ys ≡ r ∷ rs = cc in rw made (ap suc (length-traverse f xs rs p1))

-- The steps in which both tables take a row and stay.
abbrev pub IsRowStep : Message → ℕ → Type 0
IsRowStep m step = ((command_type m ≡ b'E') × (step ≡ 1)) ⊎ ((command_type m ≡ b'Q') × (step ≡ 3))

row_edge :
    (m : Message) (step : ℕ)
    → IsRowStep m step
    → (rows : List (List Edge)) × (es : List Edge) × HasTable m rows
      × (get_elem? rows step ≡ some es)
      × (find_edge b'D' es ≡ some (edge b'D' Class.tuple (some step)))
      × (may_switch m ≡ true)
unfolding may_switch paths_of hook find_edge
row_edge m step (inl (e, one)) = rw one (
  execute_steps,
  edge b'D' Class.tuple (some 1)
      ∷ edge b's' Class.suspension none
      ∷ edge b'C' Class.complete none
      ∷ [],
  rw (paths_of, e) refl,
  refl,
  refl,
  rw (may_switch, e) refl,
)
row_edge m step (inr (e, three)) = rw three (
  query_steps,
  edge b'D' Class.tuple (some 3)
      ∷ edge b'C' Class.complete (some 0)
      ∷ edge b'Z' Class.ready none
      ∷ [],
  rw (paths_of, e) refl,
  refl,
  refl,
  rw (may_switch, e) refl,
)

whole_rows :
    (i : ℕ) (x : Frame) (xs : List Frame) (made : List Processed) (s : Instruction)
    → All (λ (y : Frame). y.0 ≡ b'D') (x ∷ xs)
    → traverse (apply_path (some Class.tuple)) (map (λ (y : Frame). y.1) (x ∷ xs)) ≡ ok made
    → put_tupledata i (x ∷ xs) s ≡ (ok (length (x ∷ xs)), take_whole i made s)
unfolding put_tupledata put_tuples
whole_rows i x xs made s h q =
    let l = x ∷ xs in
    let same : length made ≡ length l =
      length-traverse (apply_path (some Class.tuple)) (map (λ (y : Frame). y.1) l) made q
      ∙ length-map _ l in
    rw
      (
        put_tupledata,
        last_type-All b'D' x xs h,
        bodies_of-All b'D' l h,
        q,
        same,
        ==-refl (length l),
      )
      refl

-- While rows are received, at the step of the rows of a Query or Execute command, a new list that
-- is not empty and holds only rows that can be parsed is put by `put_tupledata` as `standard_put`
-- puts it: the count and every field are the same, but that `standard_put` also empties the record
-- of asynchronous messages, which `put_tupledata` leaves as it was.
pub put_tupledata-standard_put :
    (i offset step : ℕ) (m : Message) (x : Frame) (xs : List Frame) (made : List Processed)
    (s : Instruction)
    → s.state ≡ receiving_tupledata
    → s.last_end ≡ (offset, step)
    → get_elem? s.commands offset ≡ some m
    → IsRowStep m step
    → is_last i s.last_messages ≡ false
    → All (λ (y : Frame). y.0 ≡ b'D') (x ∷ xs)
    → traverse (apply_path (some Class.tuple)) (map (λ (y : Frame). y.1) (x ∷ xs)) ≡ ok made
    → standard_put i (x ∷ xs) s ≡ emptied (put_tupledata i (x ∷ xs) s)
put_tupledata-standard_put i offset step m x xs made s st end at steps' fresh h q =
    let (rows, es, table, there, found, may) = row_edge m step steps' in
    let (atts, last) = last_row x.1 (map (λ (y : Frame). y.1) xs) made q in
    let plain =
      put_stays s i offset step m rows es b'D' (edge b'D' Class.tuple (some step)) (x ∷ xs) made
        (parsed (plain_tuple atts)) receiving_tupledata there found refl fresh at table may h q last
        (λ u. unfold switch_state in refl) in
    let same = same_fields s receiving_tupledata (offset, step) st end in
    ap (λ u. standard_put i (x ∷ xs) u) same
    ∙ plain
    ∙ sym (ap (λ u. emptied (ok (length (x ∷ xs)), take_whole i made u)) same)
    ∙ sym (ap emptied (whole_rows i x xs made s h q))
