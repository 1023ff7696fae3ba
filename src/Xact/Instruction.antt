-- ===== src/Xact/Instruction.antt =====
-- The state of an `Instruction` of protocol/xact3.py. Lists of received messages have an identity
-- (`id(messages)`), by which the code tells a list that it was given before.
use pg_cluster.Base.{
  Bool, Bytes, List, Option, Outcome, [], false, if◌then◌else◌, none, ok, raise, true, type_error,
  ℕ, ◌&&◌, ◌++◌, ◌∷◌,
}
use pg_cluster.Buffer.Stream.{Frame}
use pg_cluster.Element.Framing.{type_byte}
use pg_cluster.Element.Message.{Items, Message, Parsed, class_of, copy_done, copy_fail}
use pg_cluster.Xact.Hook.{flushes, hook, missing, steps}

-- What a path made of a message: `return_arg` gives the bytes themselves.
pub data Processed : Type 0 where
  raw : Bytes → Processed
  parsed : Parsed → Processed

-- `self.state`: what the user has to do next, and the method to call.
pub data State : Type 0 where
  complete_state : State
  sending_standard : State
  sending_stdin : State
  receiving_standard : State
  receiving_copydata : State
  receiving_tupledata : State

-- `self.messages`, as far as the code compares it by `is`.
pub data Outbox : Type 0 where
  nothing : Outbox
  all_commands : Outbox
  fail_sequence : Outbox
  done_sequence : Outbox
  given : List Message → Outbox

-- The server's error, or the client's report of a message that no path takes.
pub data ErrorMessage : Type 0 where
  server_error : Items → ErrorMessage
  violation : List ℕ → ℕ → ErrorMessage

-- `(offset, current_step)`
abbrev pub Position : Type 0
Position = ℕ × ℕ

pub record Instruction : Type 0 where
  pub commands : List Message
  pub state : State
  pub completed : List (ℕ × List Processed)
  pub last_messages : Option ℕ
  pub last_start : Position
  pub last_end : Position
  pub messages : Outbox
  pub fatal : Option Bool
  pub error_message : Option ErrorMessage
  pub asyncs : List Frame
  pub hooked : List Parsed
  pub last_ready : Option Bytes
  pub copy_tail : List Message

-- `cmd.type`; the commands that have no type byte are in no hook.
unfoldable pub command_type : Message → ℕ
command_type m = type_byte (class_of m)

-- `cmd.type not in self.hook`
unfoldable pub is_known : Message → Bool
is_known m = elim (hook (command_type m)) [ missing ↦ false | flushes ↦ true | steps ps ↦ true ]

unfoldable pub all_known : List Message → Bool
all_known [] = true
all_known (m ∷ ms) = is_known m && all_known ms

-- `Instruction(commands)`
unfoldable pub new_instruction : List Message → Outcome Instruction
new_instruction commands =
    if all_known commands
    then ok (record {
      commands = commands;
      state = sending_standard;
      completed = [];
      last_messages = none;
      last_start = (0, 0);
      last_end = (0, 0);
      messages = all_commands;
      fatal = none;
      error_message = none;
      asyncs = [];
      hooked = [];
      last_ready = none;
      copy_tail = [];
    })
    else raise type_error

-- `standard_sent`
unfoldable pub standard_sent : Instruction → Instruction
standard_sent s = record s { messages = nothing; state = receiving_standard }

-- `self.messages is self.CopyDoneSequence or self.messages is self.CopyFailSequence`
unfoldable pub is_final : Outbox → Bool
is_final fail_sequence = true
is_final done_sequence = true
is_final _ = false

-- `sent_from_stdin`
unfoldable pub sent_from_stdin : Instruction → Instruction
sent_from_stdin s =
    if is_final s.messages
    then record s { messages = nothing; state = receiving_standard }
    else record s { messages = fail_sequence }

-- The messages that an outbox stands for: `CopyFailSequence` and `CopyDoneSequence` end with the
-- commands behind the COPY.
unfoldable pub outgoing : Instruction → List Message
outgoing s = elim s.messages [
  | nothing ↦ []
  | all_commands ↦ s.commands
  | fail_sequence ↦ copy_fail invalid_termination ∷ s.copy_tail
  | done_sequence ↦ copy_done ∷ s.copy_tail
  | given ms ↦ ms
]
  where
    invalid_termination : Bytes
    invalid_termination =
        b'i' ∷ b'n' ∷ b'v' ∷ b'a' ∷ b'l' ∷ b'i' ∷ b'd' ∷ b' ' ∷ b't' ∷ b'e' ∷ b'r' ∷ b'm' ∷ b'i'
        ∷ b'n' ∷ b'a' ∷ b't' ∷ b'i' ∷ b'o' ∷ b'n' ∷ []

-- `messages_received`
unfoldable pub messages_received : List (ℕ × List Processed) → List Processed
messages_received [] = []
messages_received ((i, ps) ∷ rest) = ps ++ messages_received rest
