-- ===== src/Xact/Table.antt =====
-- The tables of `hook`: every step that an edge leads to is a step of its table.
use pg_cluster.Base.{
  Bool, Bool-cases, List, [], and_elim, false, get_elem?, if◌then◌else◌, inl, inr, length, ltb,
  ltb→lt, none, refl, some, some_inj, suc, true, zero, ℕ, ◌&&◌, ◌<◌, ◌==◌, ◌∷◌, ◌≡◌,
}
use pg_cluster.Element.Message.{Message}
use pg_cluster.Xact.Hook.{Edge, Entry, find_edge, flushes, hook, missing, steps}
use pg_cluster.Xact.Instruction.{command_type}
use pg_cluster.Xact.Put.{paths_of}

-- The edge leads to one of `n` steps, or completes the command.
unfoldable pub leads_below : ℕ → Edge → Bool
leads_below n e = elim e.next_step [ none ↦ true | some k ↦ ltb k n ]

unfoldable pub edges_below : ℕ → List Edge → Bool
edges_below n [] = true
edges_below n (e ∷ es) = leads_below n e && edges_below n es

unfoldable pub steps_below : ℕ → List (List Edge) → Bool
steps_below n [] = true
steps_below n (es ∷ rows) = edges_below n es && steps_below n rows

unfoldable is_closed : Entry → Bool
is_closed (steps rows) = ltb 0 (length rows) && steps_below (length rows) rows
is_closed _ = true

closed_if :
    (b : Bool) (x y : Entry)
    → is_closed x ≡ true
    → is_closed y ≡ true
    → is_closed (if b then x else y) ≡ true
closed_if true x y h k = h
closed_if false x y h k = k

hook-closed : (t : ℕ) → is_closed (hook t) ≡ true
unfolding hook is_closed steps_below edges_below leads_below
hook-closed t = closed_if (t == b'Q') _ _ refl (
    closed_if (t == b'F') _ _ refl (
      closed_if (t == b'P') _ _ refl (
        closed_if (t == b'B') _ _ refl (
          closed_if (t == b'D') _ _ refl (
            closed_if (t == b'C') _ _ refl (
              closed_if (t == b'E') _ _ refl
                (closed_if (t == b'S') _ _ refl (closed_if (t == b'H') _ _ refl refl))))))))

-- What a command's table promises.
abbrev pub IsTable : List (List Edge) → Type 0
IsTable rows = (0 < length rows) × (steps_below (length rows) rows ≡ true)

entry-IsTable :
    (x : Entry) (rows : List (List Edge))
    → is_closed x ≡ true
    → elim x [ missing ↦ none | flushes ↦ none | steps ps ↦ some ps ] ≡ some rows
    → IsTable rows
unfolding is_closed
entry-IsTable missing rows h e = cc
entry-IsTable flushes rows h e = cc
entry-IsTable (steps ps) rows h e =
    let same = some_inj ps rows e in
    let (p, q) = and_elim (ltb 0 (length ps)) (steps_below (length ps) ps) h in
    let both : IsTable ps = (ltb→lt 0 (length ps) p, q) in rw same at both

pub paths_of-IsTable :
    (m : Message) (rows : List (List Edge)) → paths_of m ≡ some rows → IsTable rows
unfolding paths_of
paths_of-IsTable m rows e =
    entry-IsTable (hook (command_type m)) rows (hook-closed (command_type m)) e

pub row_below :
    (n k : ℕ) (rows : List (List Edge)) (es : List Edge)
    → steps_below n rows ≡ true
    → get_elem? rows k ≡ some es
    → edges_below n es ≡ true
unfolding steps_below
row_below n k [] es h e = cc
row_below n zero (r ∷ rows) es h e =
    rw (some_inj r es e) at (and_elim (edges_below n r) (steps_below n rows) h).0
row_below n (suc k) (r ∷ rows) es h e =
    row_below n k rows es (and_elim (edges_below n r) (steps_below n rows) h).1 e

pub edge_below :
    (n t : ℕ) (es : List Edge) (e : Edge)
    → edges_below n es ≡ true
    → find_edge t es ≡ some e
    → leads_below n e ≡ true
unfolding edges_below find_edge
edge_below n t [] e h q = cc
edge_below n t (x ∷ es) e h q =
    let (p, r) = and_elim (leads_below n x) (edges_below n es) h in
    elim (Bool-cases (x.received == t)) [
      | inl hit ↦ rw (some_inj x e (rw hit at q)) at p
      | inr other ↦ edge_below n t es e r (rw other at q)
    ]
