-- ===== src/Client/Closing.antt =====
-- What a connection closes (protocol/client3.py) against what was given up.
use pg_cluster.Base.{
  Bytes, List, [], ap, append-nil, append_assoc, drop, length, map, refl, sym, ◌++◌, ◌∙◌, ◌∷◌, ◌≡◌,
}
use pg_cluster.Client.Trash.{
  Trash, TrashEvent, close_garbage, closed_portal, closed_statement, closing_messages, gather,
  on_trash_event, register_cursor, register_statement, registers_cursor, registers_statement,
  run_trash, takes_out, trash_cursor, trash_cursors, trash_statement, trash_statements,
  trashed_cursor, trashed_statement, trashes_cursor, trashes_statement, without_garbage,
}
use pg_cluster.Element.Message.{Message, close_portal, close_statement, synchronize}

gather-append {ℓ} :
    {A : Type ℓ} (f : A → List Bytes) (xs ys : List A)
    → gather f (xs ++ ys) ≡ gather f xs ++ gather f ys
unfolding gather
gather-append f [] ys = refl
gather-append f (x ∷ xs) ys =
    ap (λ (v : List Bytes). f x ++ v) (gather-append f xs ys)
    ∙ sym (append_assoc (f x) (gather f xs) (gather f ys))

module _ (f : Message → List Bytes) (g : Bytes → Message) where
  gather_none : (ks : List Bytes) → ((k : Bytes) → f (g k) ≡ []) → gather f (map g ks) ≡ []
  unfolding gather
  gather_none [] h = refl
  gather_none (k ∷ ks) h = rw (h k) (gather_none ks h)

  gather_all : (ks : List Bytes) → ((k : Bytes) → f (g k) ≡ k ∷ []) → gather f (map g ks) ≡ ks
  unfolding gather
  gather_all [] h = refl
  gather_all (k ∷ ks) h = rw (h k) (ap (λ (v : List Bytes). k ∷ v) (gather_all ks h))

gather-closing_messages :
    (f : Message → List Bytes) (s : Trash)
    → gather f (closing_messages s)
      ≡ gather f (map close_portal s.garbage_cursors)
        ++ (gather f (map close_statement s.garbage_statements) ++ gather f (synchronize ∷ []))
unfolding closing_messages
gather-closing_messages f s =
    gather-append f (map close_portal s.garbage_cursors) _
    ∙ ap (λ (v : List Bytes). gather f (map close_portal s.garbage_cursors) ++ v)
        (gather-append f (map close_statement s.garbage_statements) (synchronize ∷ []))

drop_front : (ks ls : List Bytes) → drop (length ks) (ks ++ ls) ≡ ls
drop_front [] ls = refl
drop_front (k ∷ ks) ls = drop_front ks ls

trash_cursors-garbage :
    (ks : List Bytes) (s : Trash)
    → ((trash_cursors ks s).garbage_cursors ≡ s.garbage_cursors ++ ks)
      × ((trash_cursors ks s).garbage_statements ≡ s.garbage_statements)
unfolding trash_cursors trash_cursor
trash_cursors-garbage [] s = (sym (append-nil s.garbage_cursors), refl)
trash_cursors-garbage (k ∷ ks) s =
    let (there, same) = trash_cursors-garbage ks (trash_cursor k s) in
    (there ∙ append_assoc s.garbage_cursors (k ∷ []) ks, same)

trash_statements-garbage :
    (ks : List Bytes) (s : Trash)
    → ((trash_statements ks s).garbage_statements ≡ s.garbage_statements ++ ks)
      × ((trash_statements ks s).garbage_cursors ≡ s.garbage_cursors)
unfolding trash_statements trash_statement
trash_statements-garbage [] s = (sym (append-nil s.garbage_statements), refl)
trash_statements-garbage (k ∷ ks) s =
    let (there, same) = trash_statements-garbage ks (trash_statement k s) in
    (there ∙ append_assoc s.garbage_statements (k ∷ []) ks, same)

-- Two steps, one behind the other
gather-steps :
    (f : Message → List Bytes) (ms more : List Message) (g t u v w : List Bytes)
    → gather f ms ++ u ≡ g ++ t
    → gather f more ++ v ≡ u ++ w
    → gather f (ms ++ more) ++ v ≡ g ++ (t ++ w)
gather-steps f ms more g t u v w h k =
    ap (λ (x : List Bytes). x ++ v) (gather-append f ms more)
    ∙ append_assoc (gather f ms) (gather f more) v
    ∙ ap (λ (x : List Bytes). gather f ms ++ x) k
    ∙ sym (append_assoc (gather f ms) u w)
    ∙ ap (λ (x : List Bytes). x ++ w) h
    ∙ append_assoc g t w

-- What is closed and what waits to be closed, on both sides of an event
abbrev IsClosed : TrashEvent → Trash → List Message × Trash → Type 0
IsClosed e s x =
    (gather closed_portal x.0 ++ x.1.garbage_cursors ≡ s.garbage_cursors ++ trashed_cursor e)
    × (gather closed_statement x.0 ++ x.1.garbage_statements
        ≡ s.garbage_statements ++ trashed_statement e)

on_trash_event-IsClosed : (e : TrashEvent) (s : Trash) → IsClosed e s (on_trash_event e s)
unfolding on_trash_event close_garbage without_garbage closed_portal closed_statement gather
    trashed_cursor trashed_statement register_cursor register_statement trash_cursor trash_statement
on_trash_event-IsClosed (registers_cursor k) s =
    (sym (append-nil s.garbage_cursors), sym (append-nil s.garbage_statements))
on_trash_event-IsClosed (trashes_cursor k) s = (refl, sym (append-nil s.garbage_statements))
on_trash_event-IsClosed (registers_statement k) s =
    (sym (append-nil s.garbage_cursors), sym (append-nil s.garbage_statements))
on_trash_event-IsClosed (trashes_statement k) s = (sym (append-nil s.garbage_cursors), refl)
on_trash_event-IsClosed (takes_out cs ss) s = (
  ap (λ (v : List Bytes). v ++ drop (length s.garbage_cursors) late.garbage_cursors)
        (gather-closing_messages closed_portal s)
      ∙ portals,
  ap (λ (v : List Bytes). v ++ drop (length s.garbage_statements) late.garbage_statements)
        (gather-closing_messages closed_statement s)
      ∙ commands,
)
  where
    late : Trash
    late = trash_statements ss (trash_cursors cs s)

    late_cursors : late.garbage_cursors ≡ s.garbage_cursors ++ cs
    late_cursors =
        (trash_statements-garbage ss (trash_cursors cs s)).1 ∙ (trash_cursors-garbage cs s).0

    late_statements : late.garbage_statements ≡ s.garbage_statements ++ ss
    late_statements =
        (trash_statements-garbage ss (trash_cursors cs s)).0
        ∙ ap (λ (v : List Bytes). v ++ ss) (trash_cursors-garbage cs s).1

    portals :
        gather closed_portal (map close_portal s.garbage_cursors)
          ++ (gather closed_portal (map close_statement s.garbage_statements) ++ [])
          ++ drop (length s.garbage_cursors) late.garbage_cursors
        ≡ s.garbage_cursors ++ cs
    portals =
        rw
          (
            gather_all closed_portal close_portal s.garbage_cursors (λ k. refl),
            gather_none closed_portal close_statement s.garbage_statements (λ k. refl),
            late_cursors,
            drop_front s.garbage_cursors cs,
            append-nil s.garbage_cursors,
          )
          refl

    commands :
        gather closed_statement (map close_portal s.garbage_cursors)
          ++ (gather closed_statement (map close_statement s.garbage_statements) ++ [])
          ++ drop (length s.garbage_statements) late.garbage_statements
        ≡ s.garbage_statements ++ ss
    commands =
        rw
          (
            gather_none closed_statement close_portal s.garbage_cursors (λ k. refl),
            gather_all closed_statement close_statement s.garbage_statements (λ k. refl),
            late_statements,
            drop_front s.garbage_statements ss,
            append-nil s.garbage_statements,
          )
          refl

-- Over any sequence of registrations, deletions and closings, with deletions also while a closing
-- goes on: the portals that the messages close,
-- with those that still wait, are those whose cursors were deleted, each as often and in that
-- order; and so it is with the statements.
pub run_trash_lem :
    (es : List TrashEvent) (s : Trash)
    → (gather closed_portal (run_trash es s).0 ++ (run_trash es s).1.garbage_cursors
        ≡ s.garbage_cursors ++ gather trashed_cursor es)
      × (gather closed_statement (run_trash es s).0 ++ (run_trash es s).1.garbage_statements
          ≡ s.garbage_statements ++ gather trashed_statement es)
unfolding run_trash gather
run_trash_lem [] s = (sym (append-nil s.garbage_cursors), sym (append-nil s.garbage_statements))
run_trash_lem (e ∷ es) s =
    let (ms, t) = on_trash_event e s in
    let (more, u) = run_trash es t in
    let (portals, commands) = on_trash_event-IsClosed e s in
    let there = run_trash_lem es t in
    (
      gather-steps closed_portal ms more s.garbage_cursors (trashed_cursor e) t.garbage_cursors
          u.garbage_cursors (gather trashed_cursor es) portals there.0,
      gather-steps closed_statement ms more s.garbage_statements (trashed_statement e)
          t.garbage_statements u.garbage_statements (gather trashed_statement es) commands there.1,
    )
