-- ===== src/Xact/Placed.antt =====
-- The position of an `Instruction`: a command that has a table, and a step of that table. It stays
-- one whatever is received, so that `paths[current_step]` is always there.
use pg_cluster.Base.{
  Bool-cases, List, Option, Option-cases, [], ap, arith, drop, get_elem?, inl, inr, length,
  length-drop, none, refl, some, suc, true, zero, ℕ, ◌+◌, ◌<◌, ◌∷◌, ◌≡◌, ◌≤◌,
}
use pg_cluster.Element.Class.{Class, type_of}
use pg_cluster.Element.Framing.{type_byte}
use pg_cluster.Element.Message.{Message, class_of, synchronize}
use pg_cluster.Xact.Hook.{Edge, edge, hook}
use pg_cluster.Xact.Instruction.{Instruction, Position, command_type}
use pg_cluster.Xact.Put.{find_sync, is_synchronize, next_command, paths_of}

abbrev pub HasTable : Message → List (List Edge) → Type 0
HasTable m rows = paths_of m ≡ some rows

abbrev pub IsAt : List Message → Position → Type 0
IsAt commands (offset, step) =
    (m : Message) × (rows : List (List Edge)) × (get_elem? commands offset ≡ some m)
    × HasTable m rows
    × (step < length rows)

-- Both positions that are kept.
abbrev pub IsPlaced : Instruction → Type 0
IsPlaced s = IsAt s.commands s.last_start × IsAt s.commands s.last_end

drop_cons :
    (all : List Message) (k : ℕ) (m : Message) (ms : List Message)
    → drop k all ≡ m ∷ ms
    → (get_elem? all k ≡ some m) × (drop (suc k) all ≡ ms) × (k < length all)
drop_cons [] zero m ms e = cc
drop_cons [] (suc k) m ms e = cc
drop_cons (x ∷ all) zero m ms e = ((cc), (cc), (omega arith))
drop_cons (x ∷ all) (suc k) m ms e = let (p, q, r) = drop_cons all k m ms e in (p, q, omega arith)

pub get_below :
    (all : List Message) (k : ℕ) (m : Message) → get_elem? all k ≡ some m → k < length all
get_below [] k m e = cc
get_below (x ∷ all) zero m e = omega arith
get_below (x ∷ all) (suc k) m e = omega (arith, get_below all k m e)

-- The command that the loop goes on with.
abbrev pub IsCommand : List Message → ℕ → Message → Type 0
IsCommand all j m = (get_elem? all j ≡ some m) × (rows : List (List Edge)) × HasTable m rows

drop_next : (all ms : List Message) (k : ℕ) → drop (suc k) all ≡ ms → drop (k + 1) all ≡ ms
drop_next all ms k e = let one : k + 1 ≡ suc k = omega arith in rw one e

abbrev pub IsNext : List Message → ℕ × Option Message → Type 0
IsNext all (j, none) = j ≡ length all
IsNext all (j, some m) = IsCommand all j m

pub next_command_lem :
    (all ms : List Message) (k : ℕ)
    → k ≤ length all
    → drop k all ≡ ms
    → IsNext all (next_command ms k)
unfolding next_command
next_command_lem all [] k h e =
    omega (arith, length-drop k all, ap (λ (t : List Message). length t) e)
next_command_lem all (m ∷ ms) k h e =
    let (p, q, r) = drop_cons all k m ms e in
    let later = next_command_lem all ms (k + 1) (omega (arith, r)) (drop_next all ms k q) in
    elim (Option-cases (paths_of m)) [
      | inl hidden ↦ rw (next_command, hidden) later
      | inr (rows, table) ↦ rw (next_command, table) (p, rows, table)
    ]

abbrev pub IsSync : List Message → Option (ℕ × Message) → Type 0
IsSync all none = Unit
IsSync all (some (j, m)) = IsCommand all j m

synchronize_table :
    (m : Message) → is_synchronize m ≡ true → (rows : List (List Edge)) × HasTable m rows
unfolding is_synchronize paths_of hook command_type type_byte type_of class_of
synchronize_table synchronize h = ((edge b'Z' Class.ready none ∷ []) ∷ [], refl)
synchronize_table _ h = cc

pub find_sync_lem : (all ms : List Message) (k : ℕ) → drop k all ≡ ms → IsSync all (find_sync ms k)
unfolding find_sync
find_sync_lem all [] k e = tt
find_sync_lem all (m ∷ ms) k e =
    let (p, q, r) = drop_cons all k m ms e in
    elim (Bool-cases (is_synchronize m)) [
      | inl found ↦ let (rows, table) = synchronize_table m found in rw found (p, rows, table)
      | inr other ↦ rw other (find_sync_lem all ms (k + 1) (drop_next all ms k q))
    ]
