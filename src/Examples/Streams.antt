-- ===== src/Examples/Streams.antt =====
-- The stream of protocol/pbuffer.py, and the theorems about it at concrete data.
use pg_cluster.Base.{Bytes, List, [], arith, ok, refl, some, ◌∷◌, ◌≡◌}
use pg_cluster.Buffer.Count.{message_count_lem}
use pg_cluster.Buffer.Fragments.{receive, receive_lem}
use pg_cluster.Buffer.Refine.{Refines, read-Refines}
use pg_cluster.Buffer.Spec.{
  count_of, pending, read_of, take_message, take_messages, take_more, take_parts,
}
use pg_cluster.Buffer.Stream.{Frame, MessageStream, message_count, new_stream, read, read_header}
use pg_cluster.Connection.{CarryAll, transmission}
use pg_cluster.Element.Class.{type_of}
use pg_cluster.Element.Fields.{concat, join_all}
use pg_cluster.Element.Message.{Message, class_of, copy_data, flush}
use pg_cluster.Element.Wire.{frame, frame_as, serialize, to_bytes}
use pg_cluster.Struct.{be4, ulong_pack}

-- A file whose first three bytes have been read, with the start of a message behind them.
abbrev used_stream : MessageStream
used_stream = record {
  file = record { bytes = 1 ∷ 2 ∷ 3 ∷ b'Z' ∷ 0 ∷ 0 ∷ 0 ∷ 5 ∷ b'I' ∷ b'Z' ∷ []; pos = 0 };
  start = 3;
}

read-Refines_example :
    Refines
      (read 9 used_stream)
      (read_of (pending used_stream) (take_messages 9 (pending used_stream)))
read-Refines_example = read-Refines 9 used_stream (omega arith)

message_count_lem_example :
    message_count used_stream ≡ some (count_of (take_messages 20 (pending used_stream)))
unfolding pending
message_count_lem_example = message_count_lem 20 used_stream (omega arith)

abbrev ready_frame : Bytes
ready_frame = b'Z' ∷ 0 ∷ 0 ∷ 0 ∷ 5 ∷ b'I' ∷ []

receive_lem_example :
    Refines
      (receive 9 ((b'Z' ∷ 0 ∷ 0 ∷ []) ∷ (0 ∷ 5 ∷ b'I' ∷ []) ∷ []) new_stream)
      (ok ((b'Z', b'I' ∷ []) ∷ []), [])
unfolding pending take_messages take_more take_message take_parts read_header
receive_lem_example =
    receive_lem 9 ((b'Z' ∷ 0 ∷ 0 ∷ []) ∷ (0 ∷ 5 ∷ b'I' ∷ []) ∷ []) new_stream
      ((b'Z', b'I' ∷ []) ∷ []) [] (omega arith) refl (omega arith) refl

abbrev two_messages : List Message
two_messages = flush ∷ copy_data (7 ∷ []) ∷ []

abbrev two_chunks : List Bytes
two_chunks = (b'H' ∷ 0 ∷ 0 ∷ []) ∷ (0 ∷ 4 ∷ b'd' ∷ 0 ∷ 0 ∷ 0 ∷ 5 ∷ 7 ∷ []) ∷ []

transmission_example :
    (join_all to_bytes two_messages ≡ ok (concat two_chunks))
    × ((fs : List Frame) × Refines (receive 20 two_chunks new_stream) (ok fs, [])
        × CarryAll two_messages fs)
unfolding join_all to_bytes serialize class_of frame_as frame type_of ulong_pack be4
transmission_example =
    transmission 20 two_messages two_chunks ((tt, tt, omega arith), ((tt, tt, omega arith), tt))
      refl (omega arith)
