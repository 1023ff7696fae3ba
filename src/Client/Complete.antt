-- ===== src/Client/Complete.antt =====
-- The methods of a `Connection` of protocol/client3.py that drive a transaction: `complete`, `step`,
-- `push`, `synchronize` and `take_out_trash`. A transaction is any class with the attributes that they use.
use pg_cluster.Base.{
  Bool, Bytes, Exception, List, Option, Outcome, [], drop, false, if◌then◌else◌, none, ok, raise,
  some, suc, true, zero, ℕ, ◌+◌, ◌∷◌, ◌≡◌,
}
use pg_cluster.Buffer.Stream.{Frame}
use pg_cluster.Client.Transport.{
  Batch, Reply, Transport, at_eof, done, fails, interrupted, raises, standard_read_messages,
  standard_write_messages, waits,
}
use pg_cluster.Client.Trash.{Trash, close_garbage, has_garbage}
use pg_cluster.Element.Message.{Message, synchronize}

-- `xact.Complete`, and the first part of the other states
pub data Direction : Type 0 where
  is_complete is_sending is_receiving : Direction

-- What `self.xact` is marked with: an exception of the socket, the end of the data, an exception
-- in `complete`, and what may go wrong in `connect`.
pub data Failure : Type 0 where
  lost : Bytes → Failure
  eof_error : Failure
  protocol_error : Exception → Failure
  connect_timeout : Failure
  cannot_connect : Option Bytes → Failure
  not_pq_error no_ssl_error ssl_failed_error partial_connection_error : Failure

-- The transactions: their state, messages, whether `fatal` is True, `last_ready` and whether there is
-- an `error_message`; the methods
-- that stand in the state of a transaction, applied to it as it is later; the marks of a failure;
-- and `xact.Instruction(commands)`, with a number that makes it a new object.
pub record Transactions (X : Type 0) : Type 0 where
  pub direction : X → Direction
  pub messages_of : X → Batch
  pub is_fatal : X → Bool
  pub last_ready_of : X → Option Bytes
  pub has_error : X → Bool
  pub sent_op : X → X → Outcome (Unit {0}) × X
  pub put_op : X → ℕ → List Frame → X → Outcome ℕ × X
  pub fail : Failure → X → X
  pub instruction : ℕ → List Message → Outcome X
  pub fail_completes : (f : Failure) (x : X) → direction (fail f x) ≡ is_complete
  pub fail_kills : (f : Failure) (x : X) → is_fatal (fail f x) ≡ true

-- `reads` tells the lists apart that `self.read` was set to, and `made` the transactions that the
-- connection itself has made. In `state`, `none` stands for 'INITIALIZED'.
pub record Connection (X : Type 0) : Type 0 where
  pub transport : Transport
  pub reads : ℕ
  pub made : ℕ
  pub xact : Option X
  pub state : Option Bytes
  pub trash : Trash

-- How a method ends: it returns, raises, waits for ever, or is not at its end yet.
pub data Ending : Type 0 where
  returned reraised stuck unfinished : Ending

module _ {X : Type 0} (ops : Transactions X) where
  abbrev Driven : Type 0
  Driven = Ending × Connection X

  -- `getattr(x, 'last_ready', self.state)`
  unfoldable pub note_state : X → Connection X → Connection X
  note_state x c = elim (ops.last_ready_of x) [ none ↦ c | some s ↦ record c { state = some s } ]

  -- `complete` behind its loop
  unfoldable pub finish_complete : X → Connection X → Driven
  finish_complete x c =
      (returned, record (note_state x c) { xact = if ops.is_fatal x then some x else none })

  -- `except Exception as proto_exc`
  unfoldable pub detect_error : Exception → X → Connection X → Driven
  detect_error e x c =
      (returned, record c { xact = some (ops.fail (protocol_error e) x); state = some [] })

  -- `self.read = self.read[n:]`
  unfoldable pub cut_read : ℕ → Connection X → Connection X
  cut_read n c = record c {
    transport = record c.transport { read_list = drop n c.transport.read_list };
    reads = c.reads + 1;
  }

  -- What the put method of the state of `x` did, in `complete`
  unfoldable pub after_put : (X → Connection X → Driven) → Outcome ℕ × X → Connection X → Driven
  after_put again (raise e, x) c = detect_error e x c
  after_put again (ok n, x) c = again x (cut_read n c)

  -- `if READ_MORE()`, and what its exceptions lead to
  unfoldable pub after_read : (X → Connection X → Driven) → X → Reply → Connection X → Driven
  after_read again x done c = after_put again (ops.put_op x c.reads c.transport.read_list x) c
  after_read again x (fails m) c = again (ops.fail (lost m) x) c
  after_read again x at_eof c = again (ops.fail eof_error x) c
  after_read again x (interrupted true) c = again x c
  after_read again x (interrupted false) c = (reraised, record c { xact = some x })
  after_read again x (raises e) c = detect_error e x c
  after_read again x waits c = (stuck, record c { xact = some x })

  unfoldable pub after_sent :
      (X → Connection X → Driven) → Outcome (Unit {0}) × X → Connection X → Driven
  after_sent again (raise e, x) c = detect_error e x c
  after_sent again (ok u, x) c = again x c

  -- `if WRITE_MESSAGES(x.messages)`
  unfoldable pub after_write : (X → Connection X → Driven) → X → Reply → Connection X → Driven
  after_write again x done c = after_sent again (ops.sent_op x x) c
  after_write again x (fails m) c = again (ops.fail (lost m) x) c
  after_write again x at_eof c = again (ops.fail eof_error x) c
  after_write again x (interrupted true) c = again x c
  after_write again x (interrupted false) c = (reraised, record c { xact = some x })
  after_write again x (raises e) c = detect_error e x c
  after_write again x waits c = (stuck, record c { xact = some x })

  -- A round of the loops of `complete`: the inner loops go on while the direction is theirs, and the
  -- outer one while it is not Complete.
  unfoldable pub drive : (X → Connection X → Driven) → Direction → X → Connection X → Driven
  drive again is_complete x c = finish_complete x c
  drive again is_receiving x c =
      let (r, t) = standard_read_messages 4294967295 c.transport in
      after_read again x r (record c { transport = t })
  drive again is_sending x c =
      let (r, t) = standard_write_messages (ops.messages_of x) c.transport in
      after_write again x r (record c { transport = t })

  -- `while x.state is not C`, by rounds
  unfoldable pub complete_loop : ℕ → X → Connection X → Driven
  complete_loop zero x c = (unfinished, record c { xact = some x })
  complete_loop (suc fuel) x c = drive (λ y d. complete_loop fuel y d) (ops.direction x) x c

  -- `complete`; without a transaction it raises an AttributeError.
  unfoldable pub complete_at : ℕ → Option X → Connection X → Driven
  complete_at fuel none c = (reraised, c)
  complete_at fuel (some x) c = complete_loop fuel x c

  unfoldable pub complete : ℕ → Connection X → Driven
  complete fuel c = complete_at fuel c.xact c

  -- The end of `step`: `fatal` is that of `self.xact`, which is `x`.
  unfoldable pub end_step : X → Connection X → Driven
  end_step x c = elim (ops.direction x) [
    | is_complete ↦ (returned, record c { xact = if ops.is_fatal x then some x else none })
    | is_sending ↦ (returned, record c { xact = some x })
    | is_receiving ↦ (returned, record c { xact = some x })
  ]

  unfoldable pub step_put : Outcome ℕ × X → Connection X → Driven
  step_put (raise e, x) c = (reraised, record c { xact = some x })
  step_put (ok n, x) c = end_step x (note_state x (cut_read n c))

  unfoldable pub step_sent : Outcome (Unit {0}) × X → Connection X → Driven
  step_sent (raise e, x) c = (reraised, record c { xact = some x })
  step_sent (ok u, x) c = end_step x c

  -- What the socket did to the transaction; whether `read_messages` returned True is not asked.
  unfoldable pub marked : Reply → X → X
  marked (fails m) x = ops.fail (lost m) x
  marked at_eof x = ops.fail eof_error x
  marked _ x = x

  -- An exception of the socket that says to try again ends the step.
  unfoldable pub step_reply : (X → Driven) → X → Reply → Connection X → Driven
  step_reply next x (interrupted true) c = (returned, record c { xact = some x })
  step_reply next x (interrupted false) c = (reraised, record c { xact = some x })
  step_reply next x (raises e) c = (reraised, record c { xact = some x })
  step_reply next x waits c = (stuck, record c { xact = some x })
  step_reply next x r c = next (marked r x)

  unfoldable pub step_to : Direction → X → Connection X → Driven
  step_to is_complete x c = (reraised, c)
  step_to is_sending x c =
      let (r, t) = standard_write_messages (ops.messages_of x) c.transport in
      let d = record c { transport = t } in step_reply (λ y. step_sent (ops.sent_op x y) d) x r d
  step_to is_receiving x c =
      let (r, t) = standard_read_messages 4294967295 c.transport in
      let d = record c { transport = t } in
      step_reply (λ y. step_put (ops.put_op x d.reads d.transport.read_list y) d) x r d

  -- `step`; without a transaction, or with one that is complete, it raises.
  unfoldable pub step_at : Option X → Connection X → Driven
  step_at none c = (reraised, c)
  step_at (some x) c = step_to (ops.direction x) x c

  unfoldable pub step : Connection X → Driven
  step c = step_at c.xact c

  -- What a method does behind a call that returned.
  unfoldable pub behind : Driven → (Connection X → Driven) → Driven
  behind (returned, c) next = next c
  behind (reraised, c) next = (reraised, c)
  behind (stuck, c) next = (stuck, c)
  behind (unfinished, c) next = (unfinished, c)

  -- `self.xact = xact.Instruction(...)`, and `self.complete()`
  unfoldable pub complete_new : ℕ → Outcome X → Connection X → Connection X → Driven
  complete_new fuel (raise e) before c = (reraised, before)
  complete_new fuel (ok x) before c = complete fuel (record c { xact = some x; made = c.made + 1 })

  -- `take_out_trash`, with the cursors and statements that callbacks append meanwhile
  unfoldable pub take_out_trash : List Bytes × List Bytes → ℕ → Connection X → Driven
  take_out_trash (cursors, statements) fuel c =
      let (messages, left) = close_garbage cursors statements c.trash in
      complete_new fuel (ops.instruction c.made messages) c (record c { trash = left })

  unfoldable pub complete_any : ℕ → Option X → Connection X → Driven
  complete_any fuel none c = (returned, c)
  complete_any fuel (some x) c = complete fuel c

  -- `synchronize`
  unfoldable pub synchronize_connection : ℕ → Connection X → Driven
  synchronize_connection fuel c =
      behind (complete_any fuel c.xact c)
        (λ d. complete_new fuel (ops.instruction d.made (synchronize ∷ [])) d d)

  -- `push(x)`: what is under way is completed, the trash taken out, and `x` started.
  unfoldable pub start : X → Option X → Connection X → Driven
  start x none c = step (record c { xact = some x })
  start x (some y) c = (returned, c)

  unfoldable pub take_out_any : List Bytes × List Bytes → ℕ → Option X → Connection X → Driven
  take_out_any late fuel none c =
      if has_garbage c.trash then take_out_trash late fuel c else (returned, c)
  take_out_any late fuel (some y) c = (returned, c)

  unfoldable pub push_any : List Bytes × List Bytes → ℕ → X → Connection X → Driven
  push_any late fuel x c =
      behind (complete_any fuel c.xact c)
        (λ d. behind (take_out_any late fuel d.xact d) (λ e. start x e.xact e))

  unfoldable pub push : List Bytes × List Bytes → ℕ → X → Connection X → Driven
  push late fuel x c = elim (ops.direction x) [
    | is_complete ↦ (returned, c)
    | is_sending ↦ push_any late fuel x c
    | is_receiving ↦ push_any late fuel x c
  ]
