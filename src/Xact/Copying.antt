-- ===== src/Xact/Copying.antt =====
-- `put_copydata` and `put_tupledata` do what `standard_put` does with the same lists.
use pg_cluster.Base.{
  ==-refl, ==_iff, All, Bool-cases, Bytes, List, [], ap, arith, false, get_elem?, inl, inr, length,
  map, ok, refl, some, sym, true, ℕ, ◌==◌, ◌∙◌, ◌∷◌, ◌≡◌,
}
use pg_cluster.Buffer.Stream.{Frame}
use pg_cluster.Element.Class.{Class}
use pg_cluster.Element.Message.{Message}
use pg_cluster.Xact.Fast.{put_copydata, put_lines, take_whole}
use pg_cluster.Xact.Hook.{Edge, edge, execute_steps, find_edge, hook, query_steps, raw_edge}
use pg_cluster.Xact.Instruction.{Instruction, command_type, raw, receiving_copydata}
use pg_cluster.Xact.Placed.{HasTable}
use pg_cluster.Xact.Put.{is_last, last_of, may_switch, paths_of, standard_put, switch_state}
use pg_cluster.Xact.Shortcut.{
  bodies_of-All, emptied, last_type-All, put_stays, same_fields, traverse_raw,
}

-- The last element of what a list of rows was made to
last_raw : (v : Bytes) (vs : List Bytes) → (w : Bytes) × (last_of (map raw (v ∷ vs)) ≡ some (raw w))
unfolding last_of
last_raw v [] = (v, refl)
last_raw v (w ∷ vs) = last_raw w vs

-- In the step of COPY lines, both tables take a line and stay.
copying_row :
    (m : Message)
    → may_switch m ≡ true
    → (rows : List (List Edge)) × (es : List Edge) × HasTable m rows
      × (get_elem? rows 2 ≡ some es)
      × (find_edge b'd' es ≡ some (raw_edge b'd' (some 2)))
unfolding may_switch paths_of hook find_edge
copying_row m h = elim (Bool-cases (command_type m == b'E')) [
  | inl execution ↦
      let e : command_type m ≡ b'E' = (==_iff (command_type m) b'E').0 execution in
      (
        execute_steps,
        raw_edge b'd' (some 2) ∷ edge b'c' Class.copy_done (some 3) ∷ [],
        rw (paths_of, e) refl,
        refl,
        refl,
      )
  | inr other ↦
      let e : command_type m ≡ b'Q' = (==_iff (command_type m) b'Q').0 (rw other at h) in
      (
        query_steps,
        raw_edge b'd' (some 2) ∷ edge b'c' Class.copy_done (some 1) ∷ [],
        rw (paths_of, e) refl,
        refl,
        refl,
      )
]

pub length-map {ℓ κ} :
    {A : Type ℓ} {B : Type κ} (f : A → B) (xs : List A) → length (map f xs) ≡ length xs
length-map f [] = refl
length-map f (x ∷ xs) = omega (arith, length-map f xs)

whole_lines :
    (i : ℕ) (x : Frame) (xs : List Frame) (s : Instruction)
    → All (λ (y : Frame). y.0 ≡ b'd') (x ∷ xs)
    → put_copydata i (x ∷ xs) s
      ≡ (ok (length (x ∷ xs)), take_whole i (map raw (map (λ (y : Frame). y.1) (x ∷ xs))) s)
unfolding put_copydata put_lines
whole_lines i x xs s h =
    let l = x ∷ xs in
    let same : length (map (λ (y : Frame). y.1) l) ≡ length l = length-map _ l in
    rw (put_copydata, last_type-All b'd' x xs h, bodies_of-All b'd' l h, same, ==-refl (length l))
      refl

-- While a COPY to the client goes on, at the step of the lines of a Query or Execute command, a new
-- list that is not empty and holds lines only is put by `put_copydata` as `standard_put` puts it:
-- the count and every field are the same, but that `standard_put` also empties the record of
-- asynchronous messages, which `put_copydata` leaves as it was.
pub put_copydata-standard_put :
    (i offset : ℕ) (m : Message) (x : Frame) (xs : List Frame) (s : Instruction)
    → s.state ≡ receiving_copydata
    → s.last_end ≡ (offset, 2)
    → get_elem? s.commands offset ≡ some m
    → may_switch m ≡ true
    → is_last i s.last_messages ≡ false
    → All (λ (y : Frame). y.0 ≡ b'd') (x ∷ xs)
    → standard_put i (x ∷ xs) s ≡ emptied (put_copydata i (x ∷ xs) s)
put_copydata-standard_put i offset m x xs s st end at may fresh h =
    let bodies = map (λ (y : Frame). y.1) (x ∷ xs) in
    let (rows, es, table, there, found) = copying_row m may in
    let (w, last) = last_raw x.1 (map (λ (y : Frame). y.1) xs) in
    let plain =
      put_stays s i offset 2 m rows es b'd' (raw_edge b'd' (some 2)) (x ∷ xs) (map raw bodies)
        (raw w) receiving_copydata there found refl fresh at table may h (traverse_raw bodies) last
        (λ u. unfold switch_state in refl) in
    let same = same_fields s receiving_copydata (offset, 2) st end in
    ap (λ u. standard_put i (x ∷ xs) u) same
    ∙ plain
    ∙ sym (ap (λ u. emptied (ok (length (x ∷ xs)), take_whole i (map raw bodies) u)) same)
    ∙ sym (ap emptied (whole_lines i x xs s h))
