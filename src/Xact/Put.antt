-- ===== src/Xact/Put.antt =====
-- `Instruction.standard_put` of protocol/xact3.py.
use pg_cluster.Base.{
  Bool, Bytes, Exception, List, Option, Outcome, [], bytes_eq, drop, false, get_elem?,
  if◌then◌else◌, index_error, key_error, length, map, none, not, ok, raise, some, true, type_error,
  upper, ℕ, ◌&&◌, ◌++◌, ◌+◌, ◌==◌, ◌>>=◌, ◌||◌, ◌∷◌,
}
use pg_cluster.Buffer.Stream.{Frame}
use pg_cluster.Element.Backend.{parse_notice}
use pg_cluster.Element.Class.{Class}
use pg_cluster.Element.Message.{
  Items, Message, Parsed, copy_from_begin, copy_to_begin, element_of, error, plain_tuple, ready,
  synchronize,
}
use pg_cluster.Element.Wire.{parse}
use pg_cluster.Xact.Hook.{Edge, asynchronous, find_edge, flushes, hook, missing, steps}
use pg_cluster.Xact.Instruction.{
  Instruction, Position, Processed, command_type, complete_state, parsed, raw, receiving_copydata,
  receiving_tupledata, sending_stdin, server_error, violation,
}

-- The local variables of the loop. `paths` is `none` where the code's `paths` is `None`.
pub record Loop : Type 0 where
  pub self : Instruction
  pub offset : ℕ
  pub current_step : ℕ
  pub cmd : Message
  pub paths : Option (List (List Edge))
  pub processed : List Processed
  pub count : ℕ

-- How the loop goes on after a message: with the next one; it is left by `break`; the method
-- returns the count; or it raises.
pub data Turn : Type 0 where
  continues : Loop → Turn
  breaks : Loop → Turn
  returns : Instruction → ℕ → Turn
  fails : Exception → Instruction → Turn

-- `HOOK[cmd.type]`; the commands were checked, so a key is there.
unfoldable pub paths_of : Message → Option (List (List Edge))
paths_of m = elim (hook (command_type m)) [ missing ↦ none | flushes ↦ none | steps ps ↦ some ps ]

-- `em[b'S']`; what the code goes on to do with a value that is `None` is a type error.
unfoldable pub get_item : Bytes → Items → Outcome Bytes
get_item k [] = raise key_error
get_item k ((j, v) ∷ d) =
    if bytes_eq j k then elim v [ none ↦ raise type_error | some x ↦ ok x ] else get_item k d

-- `.upper() != b'ERROR'`
unfoldable pub is_fatal : Bytes → Bool
is_fatal severity = not (bytes_eq (upper severity) (b'E' ∷ b'R' ∷ b'R' ∷ b'O' ∷ b'R' ∷ []))

-- `cmd.type not in (Function.type, Query.type)`, negated
unfoldable pub implies_sync : Message → Bool
implies_sync m = (command_type m == b'F') || (command_type m == b'Q')

-- `is element.SynchronizeMessage`: the class has one instance.
unfoldable pub is_synchronize : Message → Bool
is_synchronize synchronize = true
is_synchronize _ = false

-- The first Synchronize among the commands from `offset` on: its offset and the command.
unfoldable pub find_sync : List Message → ℕ → Option (ℕ × Message)
find_sync [] offset = none
find_sync (m ∷ ms) offset = if is_synchronize m then some (offset, m) else find_sync ms (offset + 1)

-- The command that the rest of the messages is for, after an error that is not fatal.
unfoldable pub sync_up : Loop → Option (ℕ × Message)
sync_up l =
    if implies_sync l.cmd
    then some (l.offset, l.cmd)
    else find_sync (drop l.offset l.self.commands) l.offset

unfoldable pub after_sync : Loop → Instruction → Option (ℕ × Message) → Turn
after_sync l s none = returns (record s { state = complete_state }) l.count
after_sync l s (some (offset, cmd)) = continues (record {
  self = s;
  offset = offset;
  current_step = 0;
  cmd = cmd;
  paths = paths_of cmd;
  processed = l.processed;
  count = l.count;
})

-- The branch of an Error message that no path takes.
unfoldable pub put_error : Loop → Items → Outcome Bytes → Turn
put_error l em (raise e) = fails e l.self
put_error l em (ok severity) =
    let s = record l.self {
      fatal = some (is_fatal severity);
      error_message = some (server_error em);
    } in
    if is_fatal severity
    then returns (record s { state = complete_state }) l.count
    else after_sync l s (sync_up l)

unfoldable pub error_items : Outcome Message → Items
error_items (ok (error d)) = d
error_items _ = []

-- `x in self._asyncs`
unfoldable pub frame_in : Frame → List Frame → Bool
frame_in x [] = false
frame_in (t, v) ((u, w) ∷ xs) = ((t == u) && bytes_eq v w) || frame_in (t, v) xs

-- The branch of an asynchronous message. What `asynchook` does with the message, and what it
-- raises, does not reach the transaction: the calls are recorded in `hooked`.
unfoldable pub put_async : Loop → Frame → Outcome Parsed → Turn
put_async l x (raise e) = if frame_in x l.self.asyncs then continues l else fails e l.self
put_async l x (ok msg) =
    if frame_in x l.self.asyncs
    then continues l
    else continues (record l {
      self = record l.self { hooked = l.self.hooked ++ msg ∷ []; asyncs = l.self.asyncs ++ x ∷ [] };
    })

-- A message that no path takes and that is neither an error nor asynchronous.
unfoldable pub put_violation : Loop → List Edge → ℕ → Turn
put_violation l edges t =
    returns
      (record l.self {
        fatal = some true;
        error_message = some (violation (map (λ (e : Edge). e.received) edges) t);
        state = complete_state;
      })
      l.count

unfoldable pub put_unexpected : Loop → List Edge → Frame → Turn
put_unexpected l edges (t, v) =
    if t == b'E'
    then put_error l (error_items (parse_notice error v))
        (get_item (b'S' ∷ []) (error_items (parse_notice error v)))
    else elim (asynchronous t) [
      | some c ↦ put_async l (t, v) (parse c v)
      | none ↦ put_violation l edges t
    ]

-- The commands behind a completed one, past those whose hook is None: what is left, with the
-- offset. `none` where the transaction is complete.
unfoldable pub next_command : List Message → ℕ → ℕ × Option Message
next_command [] offset = (offset, none)
next_command (m ∷ ms) offset = elim (paths_of m) [
  | some ps ↦ (offset, some m)
  | none ↦ next_command ms (offset + 1)
]

-- `self.last_ready = r.xact_state` where `r` is a Ready message
unfoldable pub note_ready : Processed → Instruction → Instruction
note_ready (parsed (element_of (ready xact_state))) s = record s { last_ready = some xact_state }
note_ready r s = s

unfoldable pub after_command : Loop → ℕ × Option Message → Turn
after_command l (offset, none) =
    breaks (record l { offset = offset; current_step = 0; paths = none })
after_command l (offset, some cmd) =
    continues (record l { offset = offset; current_step = 0; cmd = cmd; paths = paths_of cmd })

-- `path(x[1])`
unfoldable pub apply_path : Option Class → Bytes → Outcome Processed
apply_path none v = ok (raw v)
apply_path (some c) v = do m ← parse c v; ok (parsed m)

-- A message that a path takes.
unfoldable pub put_valid : Loop → Option ℕ → Outcome Processed → Turn
put_valid l next (raise e) = fails e l.self
put_valid l (some n) (ok r) =
    continues (record l { current_step = n; processed = l.processed ++ r ∷ [] })
put_valid l none (ok r) =
    after_command (record l { self = note_ready r l.self; processed = l.processed ++ r ∷ [] })
      (next_command (drop (l.offset + 1) l.self.commands) (l.offset + 1))

-- `paths[current_step]`
unfoldable pub current_edges : Loop → Outcome (List Edge)
current_edges l = elim l.paths [
  | none ↦ raise type_error
  | some ps ↦ elim (get_elem? ps l.current_step) [ none ↦ raise index_error | some es ↦ ok es ]
]

unfoldable pub put_at : Loop → List Edge → Frame → Option Edge → Turn
put_at l edges x none = put_unexpected l edges x
put_at l edges (t, v) (some e) = put_valid l e.next_step (apply_path e.path v)

unfoldable pub put_edges : Loop → Frame → Outcome (List Edge) → Turn
put_edges l x (raise e) = fails e l.self
put_edges l x (ok edges) = put_at l edges x (find_edge x.0 edges)

-- One turn of the loop over the messages.
unfoldable pub put_message : Loop → Frame → Turn
put_message l x = put_edges (record l { count = l.count + 1 }) x (current_edges l)

-- The loop over the messages: `breaks` also where the messages end.
unfoldable pub put_all : Turn → List Frame → Turn
put_all (continues l) [] = breaks l
put_all (continues l) (x ∷ xs) = put_all (put_message l x) xs
put_all t xs = t

-- The messages were not pushed onto the completed list yet.
unfoldable pub push_completed :
    ℕ → List Processed → List (ℕ × List Processed) → List (ℕ × List Processed)
push_completed i ps [] = (i, ps) ∷ []
push_completed i ps ((j, qs) ∷ []) = if j == i then (j, qs) ∷ [] else (j, qs) ∷ (i, ps) ∷ []
push_completed i ps (c ∷ d ∷ cs) = c ∷ push_completed i ps (d ∷ cs)

-- The state after a command that is not complete, by the last message processed.
unfoldable pub switch_state : Processed → Instruction → ℕ → Instruction
switch_state (raw v) s offset = record s { state = receiving_copydata }
switch_state (parsed (plain_tuple atts)) s offset = record s { state = receiving_tupledata }
switch_state (parsed (element_of (copy_from_begin f fs))) s offset = record s {
  copy_tail = drop (offset + 1) s.commands;
  state = sending_stdin;
}
switch_state (parsed (element_of (copy_to_begin f fs))) s offset = record s {
  state = receiving_copydata;
}
switch_state r s offset = s

unfoldable pub last_of : List Processed → Option Processed
last_of [] = none
last_of (x ∷ []) = some x
last_of (x ∷ y ∷ xs) = last_of (y ∷ xs)

-- `cmd.type in SWITCH_TYPES`
unfoldable pub may_switch : Message → Bool
may_switch m = (command_type m == b'E') || (command_type m == b'Q')

-- The switch to a short way, or to sending COPY lines.
unfoldable pub switch_by : Option Processed → Instruction → ℕ → Instruction
switch_by none s offset = s
switch_by (some r) s offset = switch_state r s offset

unfoldable pub after_loop : Loop → Instruction → Instruction
after_loop l s =
    if l.offset == length s.commands
    then record s { state = complete_state }
    else if may_switch l.cmd
    then switch_by (last_of l.processed) s l.offset
    else s

-- What stands behind the loop.
unfoldable pub finish_put : ℕ → Loop → Instruction
finish_put i l = after_loop l (record l.self {
  completed = push_completed i l.processed l.self.completed;
  last_messages = some i;
  last_start = l.self.last_end;
  last_end = (l.offset, l.current_step);
})

unfoldable pub end_put : ℕ → Turn → Outcome ℕ × Instruction
end_put i (continues l) = (ok l.count, finish_put i l)
end_put i (breaks l) = (ok l.count, finish_put i l)
end_put i (returns s n) = (ok n, s)
end_put i (fails e s) = (raise e, s)

-- `messages is self.last[0]`
unfoldable pub is_last : ℕ → Option ℕ → Bool
is_last i none = false
is_last i (some j) = j == i

-- Where the loop starts: again where it started before, if the list was given before.
unfoldable pub start_put : Instruction → Position → Outcome Loop
start_put s (offset, step) = elim (get_elem? s.commands offset) [
  | none ↦ raise index_error
  | some cmd ↦ ok (record {
    self = s;
    offset = offset;
    current_step = step;
    cmd = cmd;
    paths = paths_of cmd;
    processed = [];
    count = 0;
  })
]

unfoldable pub run_put : ℕ → List Frame → Instruction → Outcome Loop → Outcome ℕ × Instruction
run_put i messages s (raise e) = (raise e, s)
run_put i messages s (ok l) = end_put i (put_all (continues l) messages)

-- `standard_put(messages)` of a list with identity `i`
unfoldable pub standard_put : ℕ → List Frame → Instruction → Outcome ℕ × Instruction
standard_put i messages s =
    if is_last i s.last_messages
    then run_put i messages s (start_put s s.last_start)
    else let t = record s { asyncs = [] } in run_put i messages t (start_put t s.last_end)
