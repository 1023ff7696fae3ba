-- ===== src/Driver/Mirrored.antt =====
-- A backward `Cursor` (driver/pq3.py) is a forward one over the rows in the other order.
use Prim.Native.Nat.{min}
use pg_cluster.Base.{
  List, Outcome, [], codes, drop, false, map, not, ok, raise, suc, take, true, ℕ, ◌++◌, ◌+◌, ◌-◌,
  ◌∷◌, ◌≡◌,
}
use pg_cluster.Base.Int.{pos}
use pg_cluster.Driver.Cursor.{
  Fetch, Move, Offset, Whence, absolute, all_rows, all_the_way, by_rows, from_end, move, no_count,
  relative, row_count,
}

-- What the documentation of the server says of MOVE, for `total` rows: the positions are 0, before the
-- first row, the rows, and one behind the last row.
pub record Scrolls (total : ℕ) (run : Move → ℕ → ℕ) : Type 0 where
  pub absolute_lem :
      (k p : ℕ) → run (move (row_count (pos k)) (codes "ABSOLUTE")) p ≡ min k (total + 1)
  pub relative_lem :
      (k p : ℕ) → run (move (row_count (pos k)) (codes "RELATIVE")) p ≡ min (p + k) (total + 1)
  pub backward_lem : (k p : ℕ) → run (move (row_count (pos k)) (codes "BACKWARD")) p ≡ p - k
  pub last_lem : (p : ℕ) → run (move no_count (codes "LAST")) p ≡ total
  pub forward_all : (p : ℕ) → run (move all_rows (codes "FORWARD")) p ≡ total + 1
  pub backward_all : (p : ℕ) → run (move all_rows (codes "BACKWARD")) p ≡ 0
  pub next_lem : (p : ℕ) → run (move no_count (codes "NEXT")) p ≡ min (p + 1) (total + 1)

-- What it says of FETCH, which gives the rows and the position behind them: `back` are the rows in the
-- other order.
pub record Fetches {A : Type 0} (total : ℕ) (rows back : List A) (run : Fetch → ℕ → List A × ℕ)
    : Type 0 where
  pub next_rows :
      (n p : ℕ)
      → run (true, row_count (pos (suc n))) p
        ≡ (take (suc n) (drop p rows), min (p + suc n) (total + 1))
  pub prior_rows :
      (n p : ℕ)
      → run (false, row_count (pos (suc n))) p
        ≡ (take (suc n) (drop (total + 1 - p) back), p - suc n)
  pub all_next : (p : ℕ) → run (true, all_rows) p ≡ (drop p rows, total + 1)
  pub all_prior : (p : ℕ) → run (false, all_rows) p ≡ (drop (total + 1 - p) back, 0)

unfoldable pub run_moves : (Move → ℕ → ℕ) → List Move → ℕ → ℕ
run_moves run [] p = p
run_moves run (m ∷ ms) p = run_moves run ms (run m p)

-- The kinds of `seek` that a direction turns round
abbrev pub IsTurned : Whence → Offset → Type 0
IsTurned absolute (by_rows (pos k)) = Unit
IsTurned from_end (by_rows (pos k)) = Unit
IsTurned relative o = Unit
IsTurned absolute all_the_way = Unit
IsTurned from_end all_the_way = Unit
IsTurned w o = ⊥

abbrev pub turned : Fetch → Fetch
turned (b, n) = (not b, n)

abbrev pub turned_all : Outcome (List Fetch) → Outcome (List Fetch)
turned_all (ok fs) = ok (map turned fs)
turned_all (raise e) = raise e

-- The rows that FETCH commands give together, and the position behind the last one
unfoldable pub run_fetches : {A : Type 0} → (Fetch → ℕ → List A × ℕ) → List Fetch → ℕ → List A × ℕ
run_fetches run [] p = ([], p)
run_fetches run (f ∷ fs) p =
    let (xs, q) = run f p in let (ys, r) = run_fetches run fs q in (xs ++ ys, r)

abbrev pub read_with :
    {A : Type 0} → (Fetch → ℕ → List A × ℕ) → Outcome (List Fetch) → ℕ → Outcome (List A × ℕ)
read_with run (ok fs) p = ok (run_fetches run fs p)
read_with run (raise e) p = raise e

-- The same rows, and the position counted from the other end
abbrev pub from_other_end : {A : Type 0} → ℕ → Outcome (List A × ℕ) → Outcome (List A × ℕ)
from_other_end total (ok (xs, p)) = ok (xs, total + 1 - p)
from_other_end total (raise e) = raise e
