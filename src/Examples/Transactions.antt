-- ===== src/Examples/Transactions.antt =====
-- The transactions of protocol/xact3.py, and the theorems about them at concrete data.
use pg_cluster.Base.{
  Bytes, List, [], arith, bytes_eq, inl, none, refl, slice, traverse, ◌++◌, ◌∷◌, ◌≡◌,
}
use pg_cluster.Buffer.Stream.{Frame}
use pg_cluster.Element.Attributes.{read_attributes}
use pg_cluster.Element.Backend.{is_possible_state, parse_complete_tag, parse_ready, parse_tuple}
use pg_cluster.Element.Class.{type_of}
use pg_cluster.Element.Fields.{rstrip_nul}
use pg_cluster.Element.Framing.{type_byte}
use pg_cluster.Element.Message.{Message, class_of, execute, plain_tuple, query, synchronize}
use pg_cluster.Element.Wire.{as_element, as_tuple, parse}
use pg_cluster.Struct.{ushort_unpack}
use pg_cluster.Xact.Authenticated.{put_messages-IsSound}
use pg_cluster.Xact.Copying.{put_copydata-standard_put}
use pg_cluster.Xact.Fast.{put_copydata, put_tupledata}
use pg_cluster.Xact.Hook.{find_edge, hook, query_steps}
use pg_cluster.Xact.Instruction.{
  Instruction, Position, State, command_type, complete_state, nothing, parsed, receiving_copydata,
  receiving_standard, receiving_tupledata,
}
use pg_cluster.Xact.Negotiation.{new_negotiation, put_messages, sent}
use pg_cluster.Xact.Position.{IsResult, standard_put-IsResult}
use pg_cluster.Xact.Put.{
  after_command, after_loop, apply_path, current_edges, end_put, finish_put, is_last, may_switch,
  next_command, note_ready, paths_of, put_all, put_at, put_edges, put_message, put_valid, run_put,
  standard_put, start_put,
}
use pg_cluster.Xact.Rows.{put_tupledata-standard_put}
use pg_cluster.Xact.Shortcut.{emptied}
use pg_cluster.Xact.Sound.{IsPut}

abbrev started : List Message → State → Position → Instruction
started commands state at = record {
  commands = commands;
  state = state;
  completed = [];
  last_messages = none;
  last_start = (0, 0);
  last_end = at;
  messages = nothing;
  fatal = none;
  error_message = none;
  asyncs = [];
  hooked = [];
  last_ready = none;
  copy_tail = [];
}

abbrev querying : Instruction
querying = started (query (b'x' ∷ []) ∷ []) receiving_standard (0, 0)

-- CommandComplete, then ReadyForQuery
abbrev answers : List Frame
answers = (b'C', b'o' ∷ 0 ∷ []) ∷ (b'Z', b'I' ∷ []) ∷ []

-- The answers complete the query.
query_answered : (standard_put 1 answers querying).1.state ≡ complete_state
unfolding standard_put run_put start_put put_all put_message put_edges put_at put_valid
    current_edges find_edge paths_of hook command_type type_byte type_of class_of is_last apply_path
    parse as_element parse_complete_tag rstrip_nul parse_ready is_possible_state bytes_eq
    after_command next_command end_put finish_put after_loop note_ready
query_answered = refl

standard_put-IsResult_example : IsResult querying (standard_put 1 answers querying).1
unfolding paths_of hook command_type type_byte type_of class_of
standard_put-IsResult_example = standard_put-IsResult querying 1 answers (
  (query (b'x' ∷ []), query_steps, refl, refl, omega arith),
  (query (b'x' ∷ []), query_steps, refl, refl, omega arith),
)

-- A notice was among the messages of the list before.
abbrev copying : Instruction
copying = record (started (execute [] 0 ∷ synchronize ∷ []) receiving_copydata (0, 2)) {
  asyncs = (b'N', 0 ∷ []) ∷ [];
}

abbrev copied_lines : List Frame
copied_lines = (b'd', 1 ∷ 9 ∷ []) ∷ []

put_copydata-standard_put_example :
    standard_put 4 ((b'd', 7 ∷ []) ∷ copied_lines) copying
    ≡ emptied (put_copydata 4 ((b'd', 7 ∷ []) ∷ copied_lines) copying)
unfolding may_switch command_type type_byte type_of class_of is_last
put_copydata-standard_put_example =
    put_copydata-standard_put 4 0 (execute [] 0) (b'd', 7 ∷ []) copied_lines copying refl refl refl
      refl refl (refl, (refl, tt))

abbrev plain_answer : Bytes → Bytes → Bytes
plain_answer secret salt = secret ++ salt

abbrev identity : Bytes → Bytes
identity v = v

put_messages-IsSound_example : IsPut (
    put_messages plain_answer identity 1
      ((b'R', 0 ∷ 0 ∷ 0 ∷ 3 ∷ []) ∷ [])
      (sent (new_negotiation [] (b'p' ∷ []))))
unfolding sent new_negotiation
put_messages-IsSound_example =
    put_messages-IsSound plain_answer identity 1 ((b'R', 0 ∷ 0 ∷ 0 ∷ 3 ∷ []) ∷ [])
      (sent (new_negotiation [] (b'p' ∷ []))) (tt, (λ q. absurd cc), λ q. absurd cc) refl

abbrev fetching : Instruction
fetching = started (execute [] 0 ∷ synchronize ∷ []) receiving_tupledata (0, 1)

-- A row with no attribute
abbrev empty_row : Frame
empty_row = (b'D', 0 ∷ 0 ∷ [])

put_tupledata-standard_put_example :
    standard_put 4 (empty_row ∷ []) fetching ≡ emptied (put_tupledata 4 (empty_row ∷ []) fetching)
unfolding command_type type_byte type_of class_of is_last traverse apply_path parse as_tuple
    parse_tuple ushort_unpack read_attributes slice
put_tupledata-standard_put_example =
    put_tupledata-standard_put 4 0 1 (execute [] 0) empty_row [] (parsed (plain_tuple []) ∷ [])
      fetching refl refl refl (inl (refl, refl)) refl (refl, tt) refl
