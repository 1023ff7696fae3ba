-- ===== src/Examples/Cursors.antt =====
-- The stream of rows of driver/pq3.py, at four rows that are asked for in pairs.
use Prim.Native.Nat.{min}
use pg_cluster.Base.{
  Bytes, List, [], arith, attribute_error, bytes_eq, codes, drop, false, if◌then◌else◌, map, none,
  ok, raise, refl, some, take, true, upper, ℕ, ◌*◌, ◌+◌, ◌-◌, ◌∷◌, ◌≡◌,
}
use pg_cluster.Base.Int.{pos}
use pg_cluster.Driver.Cursor.{
  Count, Fetch, Move, adjust_number, by_rows, fetch_of, fetch_some, move, moves_of, read_rows,
  resolve_whence, row_count, seek, seek_moves, seek_whence_map, turn_backward, turn_forward,
  whence_named, whence_number, whence_text, which_way,
}
use pg_cluster.Driver.Mirrored.{read_with, run_fetches}
use pg_cluster.Driver.Stream.{
  after_next, collect, collect-chunk, end_stream, init_stream, last_chunk, next_chunk, push_command,
  take_chunk, without_empty,
}
use pg_cluster.Text.Chunks.{chunk}

abbrev four_rows : List ℕ
four_rows = 1 ∷ 2 ∷ 3 ∷ 4 ∷ []

abbrev pairs : ℕ → List ℕ
pairs k = take 2 (drop (2 * k) four_rows)

abbrev as_is : List ℕ → List ℕ
as_is xs = xs

collect-chunk_example :
    ((collect 2 pairs as_is 5 (init_stream 2 pairs as_is)).0
      ≡ map as_is (without_empty (chunk 2 four_rows)))
    × ((collect 2 pairs as_is 5 (init_stream 2 pairs as_is)).1.closed ≡ true)
collect-chunk_example = collect-chunk 2 pairs as_is four_rows (omega arith) (λ k. refl)

-- The third Execute finds no row, and the stream stops there.
pairs_collected :
    collect 2 pairs as_is 9 (init_stream 2 pairs as_is)
    ≡ ((1 ∷ 2 ∷ []) ∷ (3 ∷ 4 ∷ []) ∷ [], record { current = none; requests = 3; closed = true })
unfolding collect after_next next_chunk take_chunk last_chunk end_stream push_command init_stream
pairs_collected = refl

-- MOVE over three rows
unfoldable pub run_three : Move → ℕ → ℕ
run_three m p =
    if bytes_eq m.whence (codes "LAST")
    then 3
    else if bytes_eq m.whence (codes "NEXT")
    then min (p + 1) 4
    else run_counted m.whence m.position p
  where
    run_counted : Bytes → Count → ℕ → ℕ
    run_counted name (row_count (pos k)) p =
        if bytes_eq name (codes "ABSOLUTE")
        then min k 4
        else if bytes_eq name (codes "RELATIVE")
        then min (p + k) 4
        else p - k
    run_counted name c p = if bytes_eq name (codes "FORWARD") then 4 else 0

-- FETCH over three rows
unfoldable pub fetch_three : List ℕ → List ℕ → Fetch → ℕ → List ℕ × ℕ
fetch_three ahead back (true, row_count (pos n)) p = (take n (drop p ahead), min (p + n) 4)
fetch_three ahead back (true, c) p = (drop p ahead, 4)
fetch_three ahead back (false, row_count (pos n)) p = (take n (drop (4 - p) back), p - n)
fetch_three ahead back (false, c) p = (drop (4 - p) back, 0)

abbrev upward : List ℕ
upward = 7 ∷ 8 ∷ 9 ∷ []

abbrev downward : List ℕ
downward = 9 ∷ 8 ∷ 7 ∷ []

-- From the third row, two rows backward
two_read_backward :
    read_with (fetch_three upward downward) (read_rows false (some 2) none) 3 ≡ ok (8 ∷ 7 ∷ [], 1)
unfolding read_rows fetch_some which_way fetch_of run_fetches fetch_three
two_read_backward = refl

-- A cursor whose direction is BACKWARD takes FORWARD and BACKWARD for ABSOLUTE.
turned_forward :
    seek false (by_rows (pos 2)) (whence_text (codes "forward"))
    ≡ ok (move (row_count (pos 2)) (codes "ABSOLUTE") ∷ [])
unfolding seek resolve_whence whence_named upper bytes_eq seek_moves adjust_number turn_forward
    turn_backward moves_of
turned_forward = refl

unknown_number : seek true (by_rows (pos 2)) (whence_number 5) ≡ raise attribute_error
unfolding seek resolve_whence seek_whence_map
unknown_number = refl
