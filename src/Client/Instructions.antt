-- ===== src/Client/Instructions.antt =====
-- The class `Instruction` of protocol/xact3.py as a transaction that a `Connection` drives.
use pg_cluster.Base.{
  Bool, List, Option, Outcome, false, map, none, ok, raise, refl, some, true, type_error, ℕ, ◌*◌,
  ◌+◌, ◌>>=◌,
}
use pg_cluster.Buffer.Stream.{Frame}
use pg_cluster.Client.Complete.{
  Direction, Failure, Transactions, is_complete, is_receiving, is_sending,
}
use pg_cluster.Client.Transport.{Batch}
use pg_cluster.Element.Message.{Message}
use pg_cluster.Element.Wire.{element}
use pg_cluster.Xact.Fast.{put_copydata, put_tupledata}
use pg_cluster.Xact.Instruction.{
  Instruction, Outbox, State, all_commands, complete_state, done_sequence, fail_sequence, given,
  new_instruction, nothing, outgoing, receiving_copydata, receiving_standard, receiving_tupledata,
  sending_standard, sending_stdin, sent_from_stdin, standard_sent,
}
use pg_cluster.Xact.Put.{standard_put}

-- An instruction, what the connection reported of it, and the number by which its sequences of
-- messages are told apart; a user who gives another list of COPY lines takes a new number.
pub record Pushed : Type 0 where
  pub number : ℕ
  pub body : Instruction
  pub failure : Option Failure

unfoldable pub pushed : ℕ → Instruction → Pushed
pushed n i = record { number = n; body = i; failure = none }

unfoldable pub direction_of : State → Direction
direction_of complete_state = is_complete
direction_of sending_standard = is_sending
direction_of sending_stdin = is_sending
direction_of receiving_standard = is_receiving
direction_of receiving_copydata = is_receiving
direction_of receiving_tupledata = is_receiving

-- `x.messages`, with its identity: the sequences that a class or an object has are told apart.
unfoldable pub place_of : Outbox → ℕ
place_of nothing = 0
place_of all_commands = 1
place_of fail_sequence = 2
place_of done_sequence = 3
place_of (given ms) = 4

unfoldable pub batch_of : Pushed → Batch
batch_of p = (p.number * 5 + place_of p.body.messages, map element (outgoing p.body))

-- The method in `state`, called behind a write
unfoldable pub call_sent : State → Instruction → Outcome (Unit {0}) × Instruction
call_sent sending_standard i = (ok tt, standard_sent i)
call_sent sending_stdin i = (ok tt, sent_from_stdin i)
call_sent _ i = (raise type_error, i)

-- The method in `state`, called with messages
unfoldable pub call_put : State → ℕ → List Frame → Instruction → Outcome ℕ × Instruction
call_put receiving_standard n ms i = standard_put n ms i
call_put receiving_copydata n ms i = put_copydata n ms i
call_put receiving_tupledata n ms i = put_tupledata n ms i
call_put _ n ms i = (raise type_error, i)

unfoldable pub fail_pushed : Failure → Pushed → Pushed
fail_pushed f p = record p {
  body = record p.body { state = complete_state; fatal = some true };
  failure = some f;
}

-- `hasattr(x, 'error_message')`
unfoldable pub reports : Pushed → Bool
reports p = elim p.failure [
  | none ↦ elim p.body.error_message [ none ↦ false | some e ↦ true ]
  | some f ↦ true
]

unfoldable pub is_true : Option Bool → Bool
is_true none = false
is_true (some b) = b

-- Numbers of the connection's own transactions are odd, those of the user's are even.
unfoldable pub make_pushed : ℕ → List Message → Outcome Pushed
make_pushed n ms = do i ← new_instruction ms; ok (pushed (n * 2 + 1) i)

abbrev pub put_body : {A : Type 0} → Pushed → A × Instruction → A × Pushed
put_body p (a, i) = (a, record p { body = i })

unfoldable pub instructions : Transactions Pushed
unfolding fail_pushed direction_of is_true
instructions = record {
  direction = λ p. direction_of p.body.state;
  messages_of = batch_of;
  is_fatal = λ p. is_true p.body.fatal;
  last_ready_of = λ p. p.body.last_ready;
  has_error = reports;
  sent_op = λ p q. put_body q (call_sent p.body.state q.body);
  put_op = λ p n ms q. put_body q (call_put p.body.state n ms q.body);
  fail = fail_pushed;
  instruction = make_pushed;
  fail_completes = λ f p. refl;
  fail_kills = λ f p. refl;
}
