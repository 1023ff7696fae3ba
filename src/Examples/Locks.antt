-- ===== src/Examples/Locks.antt =====
-- A database in which another session holds every lock but the first of those that are tried, and
-- the theorems of alock.py about it.
use pg_cluster.Base.{List, Option, [], false, map, none, refl, some, true, ℕ, ◌+◌, ◌-◌, ◌∷◌, ◌≡◌}
use pg_cluster.Base.Int.{negsuc, pos, ℤ}
use pg_cluster.Lock.{
  Identifier, Statements, acquire, id_pairs, ids, locked_of, new_lock, settle, several, single,
}
use pg_cluster.Lock.Rollback.{Locks, acquire_failed, amount}

abbrev somes : List (Option ℤ) → List ℤ
somes [] = []
somes (none ∷ xs) = somes xs
somes (some x ∷ xs) = x ∷ somes xs

-- The identifiers that were split
abbrev joined : List (List (Option ℤ)) → List (Option ℤ) → List Identifier
joined [] is = []
joined (p ∷ ps) [] = []
joined (p ∷ ps) (none ∷ is) = several (somes p) ∷ joined ps is
joined (p ∷ ps) (some n ∷ is) = single n ∷ joined ps is

somes-map : (xs : List ℤ) → somes (map some xs) ≡ xs
somes-map [] = refl
somes-map (x ∷ xs) = rw (somes-map xs) refl

joined-ids : (xs : List Identifier) → joined (id_pairs xs) (ids xs) ≡ xs
unfolding id_pairs ids
joined-ids [] = refl
joined-ids (single n ∷ xs) = rw (joined-ids xs) refl
joined-ids (several ns ∷ xs) = rw (somes-map ns, joined-ids xs) refl

-- How often each identifier is held
abbrev Session : Type 0
Session = Identifier → ℕ

abbrev contended : Statements Session
contended = record {
  try_locks = λ ps is d. (true ∷ [], λ x. d x + amount (locked_of (true ∷ []) (joined ps is)) x);
  acquire_locks = λ ps is d x. d x + amount (joined ps is) x;
  release_locks = λ ps is d x. d x - amount (joined ps is) x;
  is_closed = λ d. false;
}

abbrev contended-Locks : Locks contended
contended-Locks = record {
  held = λ d x. d x;
  tries = λ xs d x. rw (joined-ids xs) refl;
  releases = λ xs d x. rw (joined-ids xs) refl;
  acquires = λ xs d x. rw (joined-ids xs) refl;
}

abbrev two : List Identifier
two = single (pos 7) ∷ several (pos 1 ∷ negsuc 2 ∷ []) ∷ []

abbrev idle : Session
idle x = 0

acquire_failed_example :
    ((acquire contended false (new_lock two) idle).1 ≡ new_lock two)
    × ((x : Identifier) → (acquire contended false (new_lock two) idle).2 x ≡ 0)
unfolding acquire settle new_lock locked_of
acquire_failed_example = acquire_failed contended contended-Locks false (new_lock two) idle refl
