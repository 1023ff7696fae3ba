-- ===== src/Client/Trash.antt =====
-- The cursors and statements of a `Connection` of protocol/client3.py: the tables, and what is to be
-- closed.
use pg_cluster.Base.{
  Bool, Bytes, List, [], bytes_eq, drop, false, if◌then◌else◌, length, map, not, true, ℕ, ◌++◌,
  ◌||◌, ◌∷◌,
}
use pg_cluster.Element.Message.{Message, close_portal, close_statement, synchronize}

-- The keys of the tables, and the queues
pub record Trash : Type 0 where
  pub cursors : List Bytes
  pub statements : List Bytes
  pub garbage_cursors : List Bytes
  pub garbage_statements : List Bytes

unfoldable pub new_trash : Trash
new_trash = record { cursors = []; statements = []; garbage_cursors = []; garbage_statements = [] }

-- `d[k] = v` on the keys
unfoldable pub put_key : Bytes → List Bytes → List Bytes
put_key k [] = k ∷ []
put_key k (x ∷ xs) = let rest = put_key k xs in if bytes_eq x k then x ∷ xs else x ∷ rest

-- `del d[k]`, where a missing key is passed over
unfoldable pub del_key : Bytes → List Bytes → List Bytes
del_key k [] = []
del_key k (x ∷ xs) = let rest = del_key k xs in if bytes_eq x k then xs else x ∷ rest

unfoldable pub register_cursor : Bytes → Trash → Trash
register_cursor k s = record s { cursors = put_key k s.cursors }

unfoldable pub trash_cursor : Bytes → Trash → Trash
trash_cursor k s = record s {
  cursors = del_key k s.cursors;
  garbage_cursors = s.garbage_cursors ++ k ∷ [];
}

unfoldable pub register_statement : Bytes → Trash → Trash
register_statement k s = record s { statements = put_key k s.statements }

unfoldable pub trash_statement : Bytes → Trash → Trash
trash_statement k s = record s {
  statements = del_key k s.statements;
  garbage_statements = s.garbage_statements ++ k ∷ [];
}

-- `take_out_trash` up to the transaction: the messages
unfoldable pub closing_messages : Trash → List Message
closing_messages s =
    map close_portal s.garbage_cursors
    ++ (map close_statement s.garbage_statements ++ synchronize ∷ [])

-- `del` of as many as were counted
unfoldable pub without_garbage : ℕ → ℕ → Trash → Trash
without_garbage cursors statements s = record s {
  garbage_cursors = drop cursors s.garbage_cursors;
  garbage_statements = drop statements s.garbage_statements;
}

-- Callbacks that come one after the other
unfoldable pub trash_cursors : List Bytes → Trash → Trash
trash_cursors [] s = s
trash_cursors (k ∷ ks) s = trash_cursors ks (trash_cursor k s)

unfoldable pub trash_statements : List Bytes → Trash → Trash
trash_statements [] s = s
trash_statements (k ∷ ks) s = trash_statements ks (trash_statement k s)

-- `take_out_trash`: behind the two loops and in front of the two `del` statements, callbacks may
-- append to the queues what was not counted.
unfoldable pub close_garbage : List Bytes → List Bytes → Trash → List Message × Trash
close_garbage cursors statements s = (
  closing_messages s,
  without_garbage (length s.garbage_cursors) (length s.garbage_statements)
      (trash_statements statements (trash_cursors cursors s)),
)

-- `self.garbage_statements or self.garbage_cursors`
unfoldable pub has_garbage : Trash → Bool
has_garbage s = not (is_empty s.garbage_statements) || not (is_empty s.garbage_cursors)
  where
    is_empty : List Bytes → Bool
    is_empty [] = true
    is_empty (x ∷ xs) = false

-- What happens to the tables in the life of a connection; `takes_out` has what the callbacks append
-- while the garbage is taken out.
pub data TrashEvent : Type 0 where
  registers_cursor : Bytes → TrashEvent
  trashes_cursor : Bytes → TrashEvent
  registers_statement : Bytes → TrashEvent
  trashes_statement : Bytes → TrashEvent
  takes_out : List Bytes → List Bytes → TrashEvent

-- One of these: the messages that it sends, and the new state
unfoldable pub on_trash_event : TrashEvent → Trash → List Message × Trash
on_trash_event (registers_cursor k) s = ([], register_cursor k s)
on_trash_event (trashes_cursor k) s = ([], trash_cursor k s)
on_trash_event (registers_statement k) s = ([], register_statement k s)
on_trash_event (trashes_statement k) s = ([], trash_statement k s)
on_trash_event (takes_out cs ss) s = close_garbage cs ss s

unfoldable pub run_trash : List TrashEvent → Trash → List Message × Trash
run_trash [] s = ([], s)
run_trash (e ∷ es) s =
    let (ms, t) = on_trash_event e s in let (more, u) = run_trash es t in (ms ++ more, u)

-- The portals and statements that the messages close
unfoldable pub closed_portal : Message → List Bytes
closed_portal (close_portal k) = k ∷ []
closed_portal m = []

unfoldable pub closed_statement : Message → List Bytes
closed_statement (close_statement k) = k ∷ []
closed_statement m = []

-- What the events trash
unfoldable pub trashed_cursor : TrashEvent → List Bytes
trashed_cursor (trashes_cursor k) = k ∷ []
trashed_cursor (takes_out cs ss) = cs
trashed_cursor e = []

unfoldable pub trashed_statement : TrashEvent → List Bytes
trashed_statement (trashes_statement k) = k ∷ []
trashed_statement (takes_out cs ss) = ss
trashed_statement e = []

-- `f` of each, in order
unfoldable pub gather {ℓ} : {A : Type ℓ} → (A → List Bytes) → List A → List Bytes
gather f [] = []
gather f (x ∷ xs) = f x ++ gather f xs
