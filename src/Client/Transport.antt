-- ===== src/Client/Transport.antt =====
-- The socket of a `Connection` of protocol/client3.py, and its methods `read_into`,
-- `standard_read_messages`, `send_message_data` and `standard_write_messages`. What the calls of the
-- socket do is given in advance, call by call; behind the last one a call does not return.
use pg_cluster.Base.{
  Bool, Bytes, Exception, List, Option, Outcome, [], drop, false, if◌then◌else◌, none, ok, raise,
  some, take, true, type_error, ℕ, ◌++◌, ◌==◌, ◌∷◌,
}
use pg_cluster.Buffer.Stream.{Frame, MessageStream, has_message, new_stream, read, write}
use pg_cluster.Element.Wire.{Outgoing, cat_messages}

-- What one call of `recv` does. An exception is fatal, with its message, or it is not; then the
-- Boolean is what `try_again` says of it.
pub data Receipt : Type 0 where
  received : Bytes → Receipt
  recv_fails : Bytes → Receipt
  recv_interrupted : Bool → Receipt

-- What one call of `send` does: it takes as many bytes, or raises.
pub data Delivery : Type 0 where
  taken : ℕ → Delivery
  send_fails : Bytes → Delivery
  send_interrupted : Bool → Delivery

-- How a method of the connection ends: it returns True; it marks the transaction as failed, with
-- the message of the exception or `eof_error`, and returns False; it raises; or it waits for ever.
pub data Reply : Type 0 where
  done : Reply
  fails : Bytes → Reply
  at_eof : Reply
  interrupted : Bool → Reply
  raises : Exception → Reply
  waits : Reply

-- A sequence of messages. It is compared by `is`, so it has an identity.
abbrev pub Batch : Type 0
Batch = ℕ × List Outgoing

-- The attributes of the connection that the methods use; `sent` is what the socket has taken.
pub record Transport : Type 0 where
  pub sent : Bytes
  pub deliveries : List Delivery
  pub receipts : List Receipt
  pub message_buffer : MessageStream
  pub read_list : List Frame
  pub read_data : Option Bytes
  pub message_data : Bytes
  pub writing : Option Batch
  pub written : Option Batch

unfoldable pub new_transport : List Delivery → List Receipt → Transport
new_transport ds rs = record {
  sent = [];
  deliveries = ds;
  receipts = rs;
  message_buffer = new_stream;
  read_list = [];
  read_data = none;
  message_data = [];
  writing = none;
  written = none;
}

-- `while not BUFFER_HAS_MSG()`: the test, and the body where it holds.
unfoldable pub at_test : Outcome Bool → Reply × Transport → Transport → Reply × Transport
at_test (raise e) body t = (raises e, t)
at_test (ok true) body t = (done, t)
at_test (ok false) body t = body

-- The body, where `read_data` is None: a call of `recv`, and the next round.
unfoldable pub receive_one :
    (MessageStream → Reply × Transport) → Receipt → Transport → Reply × Transport
receive_one again (received []) t = (at_eof, record t { read_data = some [] })
receive_one again (received (b ∷ v)) t = again (write (b ∷ v) t.message_buffer)
receive_one again (recv_fails m) t = (fails m, t)
receive_one again (recv_interrupted b) t = (interrupted b, t)

-- The rounds of the loop, where `read_data` is None
abbrev pub at_round : List Receipt → MessageStream → Transport → Transport
at_round rs s t = record t { receipts = rs; message_buffer = s; read_data = none }

unfoldable pub receive_loop : List Receipt → MessageStream → Transport → Reply × Transport
receive_loop [] s t = at_test (has_message s) (waits, at_round [] s t) (at_round [] s t)
receive_loop (r ∷ rs) s t =
    let body = receive_one (λ next. receive_loop rs next t) r (at_round rs s t) in
    at_test (has_message s) body (at_round (r ∷ rs) s t)

-- `read_into`
unfoldable pub receive_from : Option Bytes → Transport → Reply × Transport
receive_from none t = receive_loop t.receipts t.message_buffer t
receive_from (some v) t =
    at_test (has_message t.message_buffer) (receive_loop t.receipts (write v t.message_buffer) t) t

unfoldable pub read_into : Transport → Reply × Transport
read_into t = receive_from t.read_data t

-- `self.read = self.message_buffer.read()` behind `read_into`, which returned or raised
unfoldable pub set_read :
    Reply → Transport → Outcome (List Frame) × MessageStream → Reply × Transport
set_read r t (raise e, s) = (raises e, record t { message_buffer = s })
set_read r t (ok ms, s) = (r, record t { read_list = ms; message_buffer = s })

unfoldable pub take_read : ℕ → Reply × Transport → Reply × Transport
take_read num (raises e, t) = (raises e, t)
take_read num (interrupted b, t) = (interrupted b, t)
take_read num (waits, t) = (waits, t)
take_read num (done, t) = set_read done t (read num t.message_buffer)
take_read num (at_eof, t) = set_read at_eof t (read num t.message_buffer)
take_read num (fails m, t) = set_read (fails m) t (read num t.message_buffer)

-- `standard_read_messages`; `num` is the default of `read`, 0xFFFFFFFF.
unfoldable pub fill_read : ℕ → List Frame → Transport → Reply × Transport
fill_read num [] t = take_read num (read_into t)
fill_read num (m ∷ ms) t = (done, t)

unfoldable pub standard_read_messages : ℕ → Transport → Reply × Transport
standard_read_messages num t = fill_read num t.read_list t

-- `while self.message_data`, with the calls of `send` that are to come
unfoldable pub send_loop : List Delivery → Bytes → Transport → Reply × Transport
send_loop ds [] t = (done, record t { deliveries = ds; message_data = [] })
send_loop [] (b ∷ v) t = (waits, record t { deliveries = []; message_data = b ∷ v })
send_loop (taken n ∷ ds) (b ∷ v) t =
    send_loop ds (drop n (b ∷ v)) (record t { sent = t.sent ++ take n (b ∷ v) })
send_loop (send_fails m ∷ ds) (b ∷ v) t =
    (fails m, record t { deliveries = ds; message_data = b ∷ v })
send_loop (send_interrupted a ∷ ds) (b ∷ v) t =
    (interrupted a, record t { deliveries = ds; message_data = b ∷ v })

-- `send_message_data`
unfoldable pub send_message_data : Transport → Reply × Transport
send_message_data t = send_loop t.deliveries t.message_data t

-- `a is b` for what `writing` and `written` hold
unfoldable pub is_same : Option Batch → Option Batch → Bool
is_same none none = true
is_same none (some y) = false
is_same (some x) none = false
is_same (some x) (some y) = x.0 == y.0

-- `cat_messages(self.writing)`; of None it is a TypeError.
unfoldable pub cat_writing : Option Batch → Outcome Bytes
cat_writing none = raise type_error
cat_writing (some b) = cat_messages b.1

-- `self.message_data += cat_messages(self.writing)` and `self.written = self.writing`
unfoldable pub add_data : Outcome Bytes → Transport → Outcome (Unit {0}) × Transport
add_data (raise e) t = (raise e, t)
add_data (ok v) t =
    let u = record t { message_data = t.message_data ++ v; written = t.writing } in (ok tt, u)

-- The first `if` of `standard_write_messages`
unfoldable pub add_unwritten : Transport → Outcome (Unit {0}) × Transport
add_unwritten t =
    if is_same t.writing t.written then (ok tt, t) else add_data (cat_writing t.writing) t

-- The second one
unfoldable pub add_batch : Batch → Transport → Outcome (Unit {0}) × Transport
add_batch b t =
    if is_same (some b) t.writing
    then (ok tt, t)
    else let u = record t { writing = some b } in add_data (cat_writing (some b)) u

unfoldable pub then_send : Outcome (Unit {0}) × Transport → Reply × Transport
then_send (raise e, t) = (raises e, t)
then_send (ok d, t) = send_message_data t

unfoldable pub then_add : Batch → Outcome (Unit {0}) × Transport → Reply × Transport
then_add b (raise e, t) = (raises e, t)
then_add b (ok d, t) = then_send (add_batch b t)

-- `standard_write_messages(messages)`
unfoldable pub standard_write_messages : Batch → Transport → Reply × Transport
standard_write_messages b t = then_add b (add_unwritten t)
