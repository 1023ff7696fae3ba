-- ===== src/Lock.antt =====
-- tools/pg_cluster_backend/psc/postgresql/alock.py: advisory locks. The functions of the database
-- that try, acquire and release are parameters.
pub mod Rollback
use pg_cluster.Base.{
  Bool, List, Option, Outcome, [], false, if◌then◌else◌, length, ltb, map, none, not, ok, raise,
  runtime_error, some, true, ℕ, ◌&&◌, ◌++◌, ◌+◌, ◌-◌, ◌==◌, ◌∷◌,
}
use pg_cluster.Base.Int.{ℤ}

-- A lock identifier: an int8, or a pair of int4 as any sequence.
pub data Identifier : Type 0 where
  single : ℤ → Identifier
  several : List ℤ → Identifier

-- `_split_lock_identifiers`: the pairs, and the int8 identifiers, with None where it is the other.
unfoldable pub id_pairs : List Identifier → List (List (Option ℤ))
id_pairs [] = []
id_pairs (single n ∷ xs) = (none ∷ none ∷ []) ∷ id_pairs xs
id_pairs (several ns ∷ xs) = map some ns ∷ id_pairs xs

unfoldable pub ids : List Identifier → List (Option ℤ)
ids [] = []
ids (single n ∷ xs) = some n ∷ ids xs
ids (several ns ∷ xs) = none ∷ ids xs

-- What `__select_statements__` gives, and `database.closed`, on the state of the session.
pub record Statements (D : Type 0) : Type 0 where
  pub try_locks : List (List (Option ℤ)) → List (Option ℤ) → D → List Bool × D
  pub acquire_locks : List (List (Option ℤ)) → List (Option ℤ) → D → D
  pub release_locks : List (List (Option ℤ)) → List (Option ℤ) → D → D
  pub is_closed : D → Bool

-- `ALock(database, *identifiers)`: the attributes that change, and those that are computed once.
pub record ALock : Type 0 where
  pub count : ℕ
  pub identifiers : List Identifier

unfoldable pub new_lock : List Identifier → ALock
new_lock xs = record { count = 0; identifiers = xs }

-- `[id for didlock, id in zip(r, identifiers) if didlock[0]]`
unfoldable pub locked_of : List Bool → List Identifier → List Identifier
locked_of [] xs = []
locked_of (b ∷ bs) [] = []
locked_of (b ∷ bs) (x ∷ xs) = let rest = locked_of bs xs in if b then x ∷ rest else rest

unfoldable pub reversed {ℓ} : {A : Type ℓ} → List A → List A
reversed [] = []
reversed (x ∷ xs) = reversed xs ++ x ∷ []

module _ {D : Type 0} (db : Statements D) where
  -- After `_try`: success only if all were locked; those that were are released otherwise.
  unfoldable pub settle : ALock → List Bool × D → Bool × ALock × D
  settle s (r, d) =
      let locked = locked_of r s.identifiers in
      if length locked == length s.identifiers
      then (true, record s { count = s.count + 1 }, d)
      else (false, s, db.release_locks (id_pairs (reversed locked)) (ids (reversed locked)) d)

  -- `acquire`
  unfoldable pub acquire : Bool → ALock → D → Bool × ALock × D
  acquire blocking s d =
      if s.count == 0
      then if blocking
        then (
          true,
          record s { count = s.count + 1 },
          db.acquire_locks (id_pairs s.identifiers) (ids s.identifiers) d,
        )
        else settle s (db.try_locks (id_pairs s.identifiers) (ids s.identifiers) d)
      else (true, record s { count = s.count + 1 }, d)

  -- `release`
  unfoldable pub release : ALock → D → Outcome ALock × D
  release s d = if ltb s.count 1 then (raise runtime_error, d) else (
    ok (record s { count = s.count - 1 }),
    if not (db.is_closed d) && ltb 0 s.count
        then db.release_locks (reversed (id_pairs s.identifiers)) (reversed (ids s.identifiers)) d
        else d,
  )

  -- `locked`
  unfoldable pub locked : ALock → D → Bool
  locked s d = ltb 0 s.count && not (db.is_closed d)
