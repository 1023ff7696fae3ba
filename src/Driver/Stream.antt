-- ===== src/Driver/Stream.antt =====
-- `MultiXactStream` of driver/pq3.py: a cursor whose rows are requested in chunks.
use pg_cluster.Base.{
  ==_iff, Bool, Bool-cases, List, Option, [], ap, arith, drop, drop-drop, false, if◌then◌else◌, inl,
  inr, length, length-drop, length-take_le_length, map, none, refl, some, suc, sym, take, true,
  zero, ℕ, ◌*◌, ◌+◌, ◌<◌, ◌==◌, ◌∙◌, ◌∷◌, ◌≡◌,
}
use pg_cluster.Text.Chunks.{chunk, chunks_with}

-- The rows that the current instruction received, how many instructions were pushed, and whether the
-- cursor is closed. `none` stands for an instruction that is None.
pub record RowStream (A : Type 0) : Type 0 where
  pub current : Option (List A)
  pub requests : ℕ
  pub closed : Bool

-- What `__next__` ends with: a chunk, or StopIteration.
pub data Next (B : Type 0) : Type 0 where
  chunk_of : B → Next B
  stops : Next B

module _ {A : Type 0} {B : Type 0} (chunksize : ℕ) (answer : ℕ → List A)
    (process : List A → B) where
  -- `answer k` has the rows that the instruction with the number k will have received.
  unfoldable pub push_command : RowStream A → RowStream A
  push_command s = record s { current = some (answer s.requests); requests = s.requests + 1 }

  -- `_init`
  unfoldable pub init_stream : RowStream A
  init_stream = push_command (record { current = none; requests = 0; closed = false })

  unfoldable pub last_chunk : List A → RowStream A → Next B × RowStream A
  last_chunk [] s = (stops, s)
  last_chunk (x ∷ xs) s = (chunk_of (process (x ∷ xs)), s)

  unfoldable pub end_stream : RowStream A → RowStream A
  end_stream s = record s { current = none; closed = true }

  unfoldable pub take_chunk : List A → RowStream A → Next B × RowStream A
  take_chunk chunk s =
      if length chunk == chunksize
      then (chunk_of (process chunk), push_command s)
      else last_chunk chunk (end_stream s)

  -- `__next__`
  unfoldable pub next_chunk : RowStream A → Next B × RowStream A
  next_chunk s = elim s.current [ none ↦ (stops, s) | some chunk ↦ take_chunk chunk s ]

  -- `list(stream)`, in at most so many calls of `__next__`
  unfoldable pub after_next :
      (RowStream A → List B × RowStream A) → Next B × RowStream A → List B × RowStream A
  after_next again (stops, s) = ([], s)
  after_next again (chunk_of b, s) = let (bs, t) = again s in (b ∷ bs, t)

  unfoldable pub collect : ℕ → RowStream A → List B × RowStream A
  collect zero s = ([], s)
  collect (suc fuel) s = after_next (λ t. collect fuel t) (next_chunk s)

-- A last chunk that is empty is left out.
abbrev pub without_empty : {A : Type 0} → List (List A) → List (List A)
without_empty [] = []
without_empty ([] ∷ []) = []
without_empty ([] ∷ y ∷ ys) = [] ∷ without_empty (y ∷ ys)
without_empty ((x ∷ xs) ∷ ys) = (x ∷ xs) ∷ without_empty ys

without_empty-cons :
    {A : Type 0} (x : List A) (xs : List (List A))
    → 0 < length x
    → without_empty (x ∷ xs) ≡ x ∷ without_empty xs
without_empty-cons [] xs h = absurd (omega arith)
without_empty-cons (y ∷ x) xs h = refl

module _ {A : Type 0} {B : Type 0} (chunksize : ℕ) (answer : ℕ → List A) (process : List A → B)
    (rows : List A) (positive : 0 < chunksize)
    (portal : (k : ℕ) → answer k ≡ take chunksize (drop (chunksize * k) rows)) where
  abbrev asked : ℕ → RowStream A
  asked k = record { current = some (answer k); requests = k + 1; closed = false }

  last_chunk-end :
      (chunk : List A) (s : RowStream A) (again : RowStream A → List B × RowStream A)
      → (again (end_stream chunksize answer process s)
          ≡ ([], end_stream chunksize answer process s))
      → after_next chunksize answer process again
          (last_chunk chunksize answer process chunk (end_stream chunksize answer process s))
        ≡ (map process (without_empty (chunk ∷ [])), end_stream chunksize answer process s)
  unfolding after_next last_chunk
  last_chunk-end [] s again e = refl
  last_chunk-end (x ∷ xs) s again e = rw e refl

  -- A stream that has ended gives no more.
  collect-ended :
      (fuel : ℕ) (s : RowStream A)
      → collect chunksize answer process fuel (end_stream chunksize answer process s)
        ≡ ([], end_stream chunksize answer process s)
  unfolding collect next_chunk end_stream after_next
  collect-ended zero s = refl
  collect-ended (suc fuel) s = refl

  collect-full :
      (fuel k : ℕ)
      → (length (answer k) == chunksize) ≡ true
      → collect chunksize answer process (suc fuel) (asked k) ≡ (
        process (answer k) ∷ (collect chunksize answer process fuel (asked (k + 1))).0,
        (collect chunksize answer process fuel (asked (k + 1))).1,
      )
  unfolding collect next_chunk take_chunk push_command after_next
  collect-full fuel k full = rw full refl

  collect-short :
      (fuel k : ℕ)
      → (length (answer k) == chunksize) ≡ false
      → collect chunksize answer process (suc fuel) (asked k) ≡ (
        map process (without_empty (answer k ∷ [])),
        end_stream chunksize answer process (asked k),
      )
  unfolding collect next_chunk take_chunk
  collect-short fuel k partial = rw partial (
      last_chunk-end (answer k) (asked k) (λ t. collect chunksize answer process fuel t)
        (collect-ended fuel (asked k)))

  collect-chunks :
      (fuel k : ℕ)
      → length (drop (chunksize * k) rows) < fuel
      → ((collect chunksize answer process fuel (asked k)).0
          ≡ map process (without_empty (chunks_with fuel chunksize (drop (chunksize * k) rows))))
        × ((collect chunksize answer process fuel (asked k)).1.closed ≡ true)
  unfolding chunks_with
  collect-chunks zero k h = absurd (omega arith)
  collect-chunks (suc fuel) k h =
      let rest = drop (chunksize * k) rows in
      elim (Bool-cases (length (answer k) == chunksize)) [
        | inl full ↦
            let size : length (answer k) ≡ chunksize =
              (==_iff (length (answer k)) chunksize).0 full in
            let next : drop chunksize rest ≡ drop (chunksize * (k + 1)) rows =
              drop-drop chunksize (chunksize * k) (chunksize * (k + 1)) rows (omega arith) in
            let taken : length (take chunksize rest) ≡ chunksize =
              ap (λ (xs : List A). length xs) (sym (portal k)) ∙ size in
            let fits : length (drop (chunksize * (k + 1)) rows) < fuel = omega (
              arith,
              ap (λ (xs : List A). length xs) next,
              length-drop chunksize rest,
              length-take_le_length chunksize rest,
              taken,
            ) in
            let (yielded, over) = collect-chunks fuel (k + 1) fits in
            rw
              (
                collect-full fuel k full,
                sym (portal k),
                full,
                next,
                without_empty-cons (answer k)
                    (chunks_with fuel chunksize (drop (chunksize * (k + 1)) rows)) (omega arith),
              )
              (ap (λ (bs : List B). process (answer k) ∷ bs) yielded, over)
        | inr partial ↦
            rw (collect-short fuel k partial, sym (portal k), partial)
              (refl, unfold end_stream in refl)
      ]

  -- The chunks that a stream yields are those of its rows, in order, each of them full but the last
  -- one, and none empty; and the cursor is closed behind the last one. The size of the chunks is
  -- not 0, and the server answers each Execute with the next rows, at most as many as were asked
  -- for.
  pub collect-chunk :
      ((collect chunksize answer process
          (suc (length rows))
          (init_stream chunksize answer process)).0
        ≡ map process (without_empty (chunk chunksize rows)))
      × ((collect chunksize answer process
            (suc (length rows))
            (init_stream chunksize answer process)).1.closed
          ≡ true)
  unfolding init_stream push_command chunk
  collect-chunk =
      let none_before : chunksize * 0 ≡ 0 = omega arith in
      let small : length (drop (chunksize * 0) rows) < suc (length rows) =
        rw none_before (omega arith) in
      let yielded = collect-chunks (suc (length rows)) 0 small in rw none_before at yielded
