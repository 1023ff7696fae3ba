-- ===== src/Xact/Hook.antt =====
-- `Instruction.hook` of protocol/xact3.py: for the type of a command, the message types that are
-- accepted at each step, how each is parsed, and the step that follows.
use pg_cluster.Base.{List, Option, [], if◌then◌else◌, none, some, ℕ, ◌==◌, ◌∷◌}
use pg_cluster.Element.Class.{Class}

-- An edge: the type that is received; the class that parses it, or `none` for `return_arg`; the
-- next step, or `none` where the command is complete.
pub record Edge : Type 0 where
  pub received : ℕ
  pub path : Option Class
  pub next_step : Option ℕ

-- What `hook` has for a type: no key, the value `None`, or a tuple of dictionaries.
pub data Entry : Type 0 where
  missing : Entry
  flushes : Entry
  steps : List (List Edge) → Entry

-- An edge by the type byte that the class has.
abbrev pub edge : ℕ → Class → Option ℕ → Edge
edge t c next = record { received = t; path = some c; next_step = next }

abbrev pub raw_edge : ℕ → Option ℕ → Edge
raw_edge t next = record { received = t; path = none; next_step = next }

abbrev pub query_steps : List (List Edge)
query_steps =
    (edge b'T' Class.tuple_descriptor (some 3)
      ∷ edge b'I' Class.null (some 0)
      ∷ edge b'C' Class.complete (some 0)
      ∷ edge b'H' Class.copy_to_begin (some 2)
      ∷ edge b'G' Class.copy_from_begin (some 1)
      ∷ edge b'Z' Class.ready none
      ∷ [])
    ∷ (edge b'C' Class.complete (some 0) ∷ [])
    ∷ (raw_edge b'd' (some 2) ∷ edge b'c' Class.copy_done (some 1) ∷ [])
    ∷ (edge b'D' Class.tuple (some 3)
        ∷ edge b'C' Class.complete (some 0)
        ∷ edge b'Z' Class.ready none
        ∷ [])
    ∷ []

abbrev pub function_steps : List (List Edge)
function_steps =
    (edge b'V' Class.function_result (some 1) ∷ []) ∷ (edge b'Z' Class.ready none ∷ []) ∷ []

abbrev pub describe_steps : List (List Edge)
describe_steps =
    (edge b't' Class.attribute_types (some 1) ∷ edge b'T' Class.tuple_descriptor none ∷ [])
    ∷ (edge b'n' Class.no_data none ∷ edge b'T' Class.tuple_descriptor none ∷ [])
    ∷ []

abbrev pub execute_steps : List (List Edge)
execute_steps =
    (edge b'D' Class.tuple (some 1)
      ∷ edge b'H' Class.copy_to_begin (some 2)
      ∷ edge b'G' Class.copy_from_begin (some 3)
      ∷ edge b'I' Class.null none
      ∷ edge b'C' Class.complete none
      ∷ [])
    ∷ (edge b'D' Class.tuple (some 1)
        ∷ edge b's' Class.suspension none
        ∷ edge b'C' Class.complete none
        ∷ [])
    ∷ (raw_edge b'd' (some 2) ∷ edge b'c' Class.copy_done (some 3) ∷ [])
    ∷ (edge b'C' Class.complete none ∷ [])
    ∷ []

unfoldable pub hook : ℕ → Entry
hook t =
    if t == b'Q'
    then steps query_steps
    else if t == b'F'
    then steps function_steps
    else if t == b'P'
    then steps ((edge b'1' Class.parse_complete none ∷ []) ∷ [])
    else if t == b'B'
    then steps ((edge b'2' Class.bind_complete none ∷ []) ∷ [])
    else if t == b'D'
    then steps describe_steps
    else if t == b'C'
    then steps ((edge b'3' Class.close_complete none ∷ []) ∷ [])
    else if t == b'E'
    then steps execute_steps
    else if t == b'S'
    then steps ((edge b'Z' Class.ready none ∷ []) ∷ [])
    else if t == b'H'
    then flushes
    else missing

-- `paths[current_step].get(x[0], (None, None))`
unfoldable pub find_edge : ℕ → List Edge → Option Edge
find_edge t [] = none
find_edge t (e ∷ es) = if e.received == t then some e else find_edge t es

-- The keys of `AsynchronousMap`, with the class that parses each.
unfoldable pub asynchronous : ℕ → Option Class
asynchronous t =
    if t == b'N'
    then some Class.notice
    else if t == b'A'
    then some Class.notify
    else if t == b'S'
    then some Class.show_option
    else none
