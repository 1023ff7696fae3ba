-- ===== src/Copyman/Manager.antt =====
-- `CopyManager` of copyman.py, from a producer of lists of lines (`IteratorProducer`) to its receivers:
-- `ProtocolReceiver`, which writes messages, and `CallReceiver`, which is given the lists.
use pg_cluster.Base.{
  Bool, Bytes, List, Option, Outcome, [], drop, false, if◌then◌else◌, map, none, not, ok, raise,
  some, suc, take, true, ℕ, ◌&&◌, ◌++◌, ◌∷◌,
}
use pg_cluster.Element.Wire.{cat_messages, line}

-- What one call of `send`, or of the callable, does; behind the last one given a call raises.
pub data Sending : Type 0 where
  takes : ℕ → Sending
  raises : Sending

-- What one `next` of the iterator does; behind the last one it is at its end.
pub data Produced : Type 0 where
  lines : List Bytes → Produced
  producer_raises : Produced

-- A receiver with its number, what it has accepted and not transmitted, and what it has transmitted.
pub data Receiver : Type 0 where
  protocol_receiver : ℕ → Bytes → Bytes → Receiver
  call_receiver : ℕ → Option (List Bytes) → List (List Bytes) → Receiver

unfoldable pub number_of : Receiver → ℕ
number_of (protocol_receiver i view sent) = i
number_of (call_receiver i ls given) = i

-- `accept` of what `CopyTransformer` made for the protocol of the receiver
unfoldable pub accept : List Bytes → Bytes → Receiver → Receiver
accept chunk wire (protocol_receiver i view sent) = protocol_receiver i wire sent
accept chunk wire (call_receiver i ls given) = call_receiver i (some chunk) given

-- `while self.view`
unfoldable pub send_view : List Sending → ℕ → Bytes → Bytes → Bool × Receiver
send_view ss i [] sent = (true, protocol_receiver i [] sent)
send_view [] i (b ∷ v) sent = (false, protocol_receiver i (b ∷ v) sent)
send_view (takes n ∷ ss) i (b ∷ v) sent = send_view ss i (drop n (b ∷ v)) (sent ++ take n (b ∷ v))
send_view (raises ∷ ss) i (b ∷ v) sent = (false, protocol_receiver i (b ∷ v) sent)

unfoldable pub call_lines :
    List Sending → ℕ → Option (List Bytes) → List (List Bytes) → Bool × Receiver
call_lines ss i none given = (true, call_receiver i none given)
call_lines (takes n ∷ ss) i (some ls) given = (true, call_receiver i none (given ++ ls ∷ []))
call_lines _ i (some ls) given = (false, call_receiver i (some ls) given)

-- `transmit`: whether it returned, and the receiver.
unfoldable pub transmit : List Sending → Receiver → Bool × Receiver
transmit ss (protocol_receiver i view sent) = send_view ss i view sent
transmit ss (call_receiver i ls given) = call_lines ss i ls given

-- `_service_receivers`: those that are left, and those that faulted.
unfoldable pub service_receivers :
    (ℕ → List Sending) → List Receiver → List Receiver × List Receiver
service_receivers env [] = ([], [])
service_receivers env (r ∷ rs) =
    let (kept, faulted) = service_receivers env rs in
    let (done, s) = transmit (env (number_of r)) r in
    if done then (s ∷ kept, faulted) else (kept, s ∷ faulted)

-- The distribution of what the transformer made; an exception of it leaves the receivers as they
-- are.
unfoldable pub distribute : List Bytes → Outcome Bytes → List Receiver → Outcome (List Receiver)
distribute chunk (raise e) rs = raise e
distribute chunk (ok wire) rs = ok (map (accept chunk wire) rs)

-- `CopyTransformer`: the messages are made where `protocols` has the one of `ProtocolReceiver`.
unfoldable pub wire_of : Bool → List Bytes → Outcome Bytes
wire_of pq chunk = if pq then cat_messages (map line chunk) else ok []

-- How the loop of `run` ended: by StopIteration, or by an exception; and what is left.
pub record Ended : Type 0 where
  pub receivers : List Receiver
  pub faulted : List Receiver
  pub left : List Produced
  pub is_raised : Bool
  pub seen_stop_iteration : Bool

-- The rounds of `run`, each with what the receivers' calls do in it
unfoldable pub after_service :
    (List Receiver → Ended) → List Produced → List Receiver × List Receiver → Ended
after_service again left (kept, []) = again kept
after_service again left (kept, f ∷ fs) = record {
  receivers = kept;
  faulted = f ∷ fs;
  left = left;
  is_raised = true;
  seen_stop_iteration = false;
}

abbrev raised_with : List Receiver → List Produced → Ended
raised_with rs left = record {
  receivers = rs;
  faulted = [];
  left = left;
  is_raised = true;
  seen_stop_iteration = false;
}

unfoldable pub after_distribute :
    (List Receiver → Ended)
    → (ℕ → List Sending)
    → List Produced
    → List Receiver
    → Outcome (List Receiver)
    → Ended
after_distribute again env left rs (raise e) = raised_with rs left
after_distribute again env left rs (ok qs) = after_service again left (service_receivers env qs)

unfoldable pub copy_loop : Bool → (ℕ → ℕ → List Sending) → ℕ → List Produced → List Receiver → Ended
copy_loop pq env k left [] = record {
  receivers = [];
  faulted = [];
  left = left;
  is_raised = false;
  seen_stop_iteration = false;
}
copy_loop pq env k [] (r ∷ rs) = record {
  receivers = r ∷ rs;
  faulted = [];
  left = [];
  is_raised = false;
  seen_stop_iteration = true;
}
copy_loop pq env k (producer_raises ∷ left) (r ∷ rs) = raised_with (r ∷ rs) left
copy_loop pq env k (lines chunk ∷ left) (r ∷ rs) =
    after_distribute (λ qs. copy_loop pq env (suc k) left qs) (env k) left (r ∷ rs)
      (distribute chunk (wire_of pq chunk) (r ∷ rs))

-- `__exit__`: the producer is served once more, the receivers exit, and all that went wrong makes a
-- CopyFail. The result is whether there is none, and the receivers.
unfoldable pub served : Ended → Outcome (List Receiver) → Bool × Ended
served e (raise x) = (false, e)
served e (ok rs) = (true, record e { receivers = rs })

unfoldable pub service_again : Bool → List Produced → Ended → Bool × Ended
service_again pq [] e = (true, record e { seen_stop_iteration = true })
service_again pq (producer_raises ∷ left) e = (false, e)
service_again pq (lines chunk ∷ left) e = served e (distribute chunk (wire_of pq chunk) e.receivers)

unfoldable pub has_receivers : List Receiver → Bool
has_receivers [] = false
has_receivers (r ∷ rs) = true

unfoldable pub all_exit : (ℕ → Bool) → List Receiver → Bool
all_exit exits [] = true
all_exit exits (r ∷ rs) = exits (number_of r) && all_exit exits rs

unfoldable pub exit_copy : Bool → (ℕ → Bool) → Ended → Bool × List Receiver
exit_copy pq exits e =
    let (producer_exits, f) =
      if has_receivers e.receivers then service_again pq e.left e else (true, e) in
    (
      has_receivers f.receivers
          && (not f.is_raised
              && (all_exit exits f.receivers && (producer_exits && f.seen_stop_iteration))),
      f.receivers,
    )

-- `protocols`
unfoldable pub takes_messages : List Receiver → Bool
takes_messages [] = false
takes_messages (protocol_receiver i view sent ∷ rs) = true
takes_messages (call_receiver i ls given ∷ rs) = takes_messages rs

-- `run`: `with self`, and the loop
unfoldable pub run_copy :
    (ℕ → Bool) → (ℕ → ℕ → List Sending) → List Produced → List Receiver → Bool × List Receiver
run_copy exits env produced rs =
    let pq = takes_messages rs in exit_copy pq exits (copy_loop pq env 0 produced rs)
