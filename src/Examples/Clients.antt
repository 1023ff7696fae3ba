-- ===== src/Examples/Clients.antt =====
-- The client of protocol/client3.py, and the theorems about it at concrete data.
use pg_cluster.Base.{
  Bool, List, Option, [], arith, bytes_eq, none, ok, refl, some, true, ◌++◌, ◌∷◌, ◌≡◌,
}
use pg_cluster.Buffer.File.{read_bytes, seek, seek_end, write_bytes}
use pg_cluster.Buffer.Spec.{has_of, pending, take_message, take_parts}
use pg_cluster.Buffer.Stream.{
  finish_read, get_body, get_message, get_parts, has_message, has_parts, read, read_header,
  read_loop, read_more, trim, write,
}
use pg_cluster.Client.Arrival.{read_into-done}
use pg_cluster.Client.Closing.{run_trash_lem}
use pg_cluster.Client.Complete.{
  Connection, after_put, after_read, after_sent, after_write, behind, complete, complete_any,
  complete_at, complete_loop, complete_new, cut_read, drive, end_step, finish_complete, lost,
  marked, note_state, reraised, step, step_at, step_reply, step_sent, step_to,
  synchronize_connection,
}
use pg_cluster.Client.Connect.{
  Opened, after_answer, after_request, connect, negotiate_ssl, new_link, open_socket, opens,
  receive_status, secure_fails, send_request, ssl_request, try_ssl,
}
use pg_cluster.Client.Ended.{EndsIdle, complete-EndsIdle}
use pg_cluster.Client.Instructions.{
  Pushed, batch_of, call_put, call_sent, direction_of, fail_pushed, instructions, is_true,
  make_pushed, place_of, pushed,
}
use pg_cluster.Client.Private.{IsPrivate, connect-IsPrivate}
use pg_cluster.Client.Reading.{IsRead, arrived, in_hand, standard_read_messages-IsRead}
use pg_cluster.Client.Transport.{
  Batch, Transport, add_batch, add_data, add_unwritten, at_test, cat_writing, done, fill_read,
  is_same, new_transport, read_into, receive_from, receive_loop, receive_one, received, recv_fails,
  send_fails, send_interrupted, send_loop, send_message_data, set_read, standard_read_messages,
  standard_write_messages, take_read, taken, then_add, then_send,
}
use pg_cluster.Client.Trash.{
  Trash, TrashEvent, closed_portal, closed_statement, gather, new_trash, run_trash, takes_out,
  trashed_cursor, trashed_statement, trashes_cursor, trashes_statement,
}
use pg_cluster.Client.Writing.{bytes_of, write_each, write_each_lem}
use pg_cluster.Element.Backend.{
  is_possible_state, parse_complete_tag, parse_ready, serialize_string,
}
use pg_cluster.Element.Class.{type_of}
use pg_cluster.Element.Fields.{join_all, rstrip_nul}
use pg_cluster.Element.Framing.{type_byte}
use pg_cluster.Element.Message.{Message, class_of, flush, query}
use pg_cluster.Element.Wire.{
  as_element, cat_messages, element, frame, frame_as, frame_untyped, outgoing_bytes, parse,
  serialize, to_bytes,
}
use pg_cluster.Struct.{be4, ulong_pack}
use pg_cluster.Xact.Hook.{find_edge, hook}
use pg_cluster.Xact.Instruction.{
  Instruction, State, all_commands, all_known, command_type, is_known, new_instruction, outgoing,
  receiving_standard, sending_standard, standard_sent,
}
use pg_cluster.Xact.Put.{
  after_command, after_loop, apply_path, current_edges, end_put, finish_put, is_last, last_of,
  may_switch, next_command, note_ready, paths_of, put_all, put_at, put_edges, put_message,
  put_valid, run_put, standard_put, start_put, switch_by, switch_state,
}

abbrev ask : Batch
ask = (0, element flush ∷ [])

-- A socket that takes two bytes, is interrupted, and takes the rest.
abbrev slow_socket : Transport
slow_socket = new_transport (taken 2 ∷ send_interrupted true ∷ taken 9 ∷ []) []

-- The first call is interrupted, and the second one sends what is left.
slow_socket_takes : (write_each (ask ∷ ask ∷ []) slow_socket).sent ≡ b'H' ∷ 0 ∷ 0 ∷ 0 ∷ 4 ∷ []
unfolding write_each standard_write_messages then_add add_unwritten is_same new_transport then_send
    add_batch add_data cat_writing cat_messages join_all outgoing_bytes to_bytes serialize frame_as
    frame class_of type_of ulong_pack be4 send_message_data send_loop
slow_socket_takes = refl

write_each_lem_example :
    ((write_each (ask ∷ ask ∷ []) slow_socket).sent
        ++ (write_each (ask ∷ ask ∷ []) slow_socket).message_data
      ≡ slow_socket.sent ++ slow_socket.message_data ++ bytes_of none (ask ∷ ask ∷ []))
    × ((write_each (ask ∷ ask ∷ []) slow_socket).writing
        ≡ (write_each (ask ∷ ask ∷ []) slow_socket).written)
unfolding new_transport cat_messages join_all outgoing_bytes to_bytes serialize frame_as frame
    class_of type_of ulong_pack be4
write_each_lem_example = write_each_lem (ask ∷ ask ∷ []) slow_socket (refl, (refl, tt)) refl

-- Two messages in three pieces
abbrev pieces : Transport
pieces =
    new_transport []
      (received (b'Z' ∷ 0 ∷ 0 ∷ []) ∷ received (0 ∷ 5 ∷ b'I' ∷ b'S' ∷ []) ∷ received (0 ∷ []) ∷ [])

first_message : (standard_read_messages 8 pieces).1.read_list ≡ (b'Z', b'I' ∷ []) ∷ []
unfolding standard_read_messages fill_read new_transport take_read read_into receive_from
    receive_loop at_test has_message has_parts read_header read_bytes seek seek_end receive_one
    write write_bytes set_read read trim read_loop read_more get_message get_parts get_body
    finish_read
first_message = refl

standard_read_messages-IsRead_example : IsRead 8 (in_hand pieces) (standard_read_messages 8 pieces)
unfolding new_transport
standard_read_messages-IsRead_example = standard_read_messages-IsRead 7 pieces (omega arith) refl

read_into-done_example : (read_into pieces).0 ≡ done
unfolding new_transport arrived pending take_message take_parts read_header has_of
read_into-done_example =
    read_into-done pieces (omega arith) refl ((λ e. cc), ((λ e. cc), ((λ e. cc), tt))) refl

abbrev some_trash : Trash
some_trash = record {
  cursors = (1 ∷ []) ∷ [];
  statements = [];
  garbage_cursors = (2 ∷ []) ∷ [];
  garbage_statements = [];
}

abbrev trash_events : List TrashEvent
trash_events =
    trashes_cursor (1 ∷ [])
    ∷ takes_out ((4 ∷ []) ∷ []) []
    ∷ trashes_statement (3 ∷ [])
    ∷ takes_out [] []
    ∷ []

run_trash_lem_example :
    (gather closed_portal (run_trash trash_events some_trash).0
        ++ (run_trash trash_events some_trash).1.garbage_cursors
      ≡ some_trash.garbage_cursors ++ gather trashed_cursor trash_events)
    × (gather closed_statement (run_trash trash_events some_trash).0
          ++ (run_trash trash_events some_trash).1.garbage_statements
        ≡ some_trash.garbage_statements ++ gather trashed_statement trash_events)
run_trash_lem_example = run_trash_lem trash_events some_trash

-- The query of an instruction, over a socket
abbrev asking : Instruction
asking = record {
  commands = query (b'x' ∷ []) ∷ [];
  state = sending_standard;
  completed = [];
  last_messages = none;
  last_start = (0, 0);
  last_end = (0, 0);
  messages = all_commands;
  fatal = none;
  error_message = none;
  asyncs = [];
  hooked = [];
  last_ready = none;
  copy_tail = [];
}

abbrev connected : Transport → Option Pushed → Connection Pushed
connected t x = record {
  transport = t;
  reads = 0;
  made = 0;
  xact = x;
  state = none;
  trash = new_trash;
}

-- The server answers the query and is ready.
abbrev answering : Transport
answering = new_transport (taken 99 ∷ []) (
    received (b'C' ∷ 0 ∷ 0 ∷ 0 ∷ 6 ∷ b'o' ∷ 0 ∷ [])
    ∷ received (b'Z' ∷ 0 ∷ 0 ∷ 0 ∷ 5 ∷ b'I' ∷ [])
    ∷ [])

complete-EndsIdle_example :
    EndsIdle instructions (complete instructions 9 (connected answering (some (pushed 0 asking))))
complete-EndsIdle_example =
    complete-EndsIdle instructions 9 (connected answering (some (pushed 0 asking)))

abbrev dead : Pushed
dead = fail_pushed (lost (7 ∷ [])) (pushed 0 asking)

-- The whole exchange: the query is sent, the answers are read, and the connection is free.
exchange_ends :
    (complete instructions 9 (connected answering (some (pushed 0 asking)))).1.xact ≡ none
unfolding complete complete_at complete_loop drive after_write after_sent after_read after_put
    finish_complete note_state cut_read instructions pushed direction_of batch_of place_of outgoing
    call_sent standard_sent call_put is_true fail_pushed standard_write_messages then_add
    add_unwritten is_same new_transport then_send add_batch add_data cat_writing cat_messages
    join_all outgoing_bytes to_bytes serialize serialize_string frame_as frame class_of type_of
    ulong_pack be4 send_message_data send_loop standard_read_messages fill_read take_read read_into
    receive_from receive_loop at_test has_message has_parts read_header read_bytes seek seek_end
    receive_one write write_bytes set_read read trim read_loop read_more get_message get_parts
    get_body finish_read standard_put run_put start_put put_all put_message put_edges put_at
    put_valid current_edges find_edge paths_of hook command_type type_byte is_last apply_path parse
    as_element parse_complete_tag rstrip_nul parse_ready is_possible_state bytes_eq after_command
    next_command end_put finish_put after_loop note_ready may_switch switch_by last_of switch_state
exchange_ends = refl

abbrev broken_socket : Transport
broken_socket = new_transport (send_fails (7 ∷ []) ∷ []) []

-- The send fails for good, and yet the instruction goes on to wait for answers.
abbrev after_broken_step : Option Pushed
after_broken_step = (step instructions (connected broken_socket (some (pushed 0 asking)))).1.xact

abbrev states : Option Pushed → List (State × Option Bool)
states none = []
states (some p) = (p.body.state, p.body.fatal) ∷ []

step_revives : states after_broken_step ≡ (receiving_standard, some true) ∷ []
unfolding step step_at step_to step_reply marked step_sent end_step instructions pushed direction_of
    batch_of place_of outgoing call_sent standard_sent call_put is_true fail_pushed
    standard_write_messages then_add add_unwritten is_same new_transport then_send add_batch
    add_data cat_writing cat_messages join_all outgoing_bytes to_bytes serialize serialize_string
    frame_as frame class_of type_of ulong_pack be4 send_message_data send_loop
step_revives = refl

-- `synchronize` puts its own instruction in the place of a dead one, and sends it.
synchronize_sends :
    (synchronize_connection instructions 1 (connected answering (some dead))).1.transport.sent
    ≡ b'S' ∷ 0 ∷ 0 ∷ 0 ∷ 4 ∷ []
unfolding synchronize_connection behind complete_any complete_new make_pushed new_instruction
    all_known is_known complete complete_at complete_loop drive after_write after_sent after_read
    after_put finish_complete note_state cut_read instructions pushed direction_of batch_of place_of
    outgoing call_sent standard_sent call_put is_true fail_pushed standard_write_messages then_add
    add_unwritten is_same new_transport then_send add_batch add_data cat_writing cat_messages
    join_all outgoing_bytes to_bytes serialize serialize_string frame_as frame class_of type_of
    ulong_pack be4 send_message_data send_loop command_type type_byte hook
synchronize_sends = refl

-- A server that has no SSL
abbrev refusing : Opened
refusing = opens (taken 99 ∷ []) (received (b'N' ∷ []) ∷ [])

abbrev fresh : Connection Pushed
fresh = connected (new_transport [] []) (some (pushed 0 asking))

connect-IsPrivate_example :
    IsPrivate instructions
      (connect instructions 9 (some true) refusing secure_fails (pushed 0 asking) fresh new_link)
unfolding new_transport
connect-IsPrivate_example =
    connect-IsPrivate instructions 9 secure_fails (pushed 0 asking) refusing fresh refl

ssl_request_bytes : to_bytes Message.negotiate_ssl ≡ ok ssl_request
unfolding to_bytes serialize frame_as frame_untyped class_of ulong_pack be4 ssl_request
ssl_request_bytes = refl

-- A socket that is lost in the negotiation of SSL: the exception leaves `connect`.
abbrev losing : Opened
losing = opens (taken 99 ∷ []) (recv_fails (7 ∷ []) ∷ [])

connect_raises :
    (connect instructions 9 (some true) losing secure_fails (pushed 0 asking) fresh new_link).0
    ≡ reraised
unfolding connect open_socket try_ssl negotiate_ssl send_request ssl_request after_request
    receive_status after_answer new_transport
connect_raises = refl
