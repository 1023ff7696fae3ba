-- ===== src/Xact/Negotiation.antt =====
-- `Negotiation` and `Closing` of protocol/xact3.py. The generator `state_machine` is the
-- enumeration of the places where it waits; `crypt` of resolved/crypt.py and `md5` of hashlib
-- are parameters.
use pg_cluster.Base.{
  Bool, Bytes, Exception, List, Option, Outcome, [], false, if◌then◌else◌, none, ok, raise,
  runtime_error, some, true, type_error, ℕ, ◌++◌, ◌+◌, ◌==◌, ◌>>=◌, ◌∷◌,
}
use pg_cluster.Buffer.Stream.{Frame}
use pg_cluster.Element.Backend.{
  parse_authentication, parse_kill_information, parse_notice, parse_ready,
}
use pg_cluster.Element.Message.{
  Items, Message, Parsed, authentication, disconnect, error, kill_information, password, ready,
  startup,
}
use pg_cluster.Element.Wire.{parse}
use pg_cluster.Xact.Hook.{asynchronous}
use pg_cluster.Xact.Put.{error_items, get_item, is_last}

-- Where `state_machine` waits; or it returned, or it raised.
pub data Phase : Type 0 where
  awaits_authentication awaits_answer awaits_killinfo awaits_ready finished : Phase

pub data Refusal : Type 0 where
  server_refused : Items → Refusal
  unexpected : ℕ → ℕ → Refusal
  unsupported : ℕ → Refusal
  not_authenticated : ℕ → Refusal

-- `self.state`
pub data Turnover : Type 0 where
  sending receiving completed_state : Turnover

pub record Negotiation : Type 0 where
  pub startup_items : Items
  pub secret : Bytes
  pub last_received : Option ℕ
  pub async_messages : List Parsed
  pub authtype : Option (ℕ × Bytes)
  pub killinfo : Option (ℕ × ℕ)
  pub authok : Option (ℕ × Bytes)
  pub ready_state : Option Bytes
  pub phase : Phase
  pub outbox : List Message
  pub turnover : Turnover
  pub failed : Bool
  pub refusal : Option Refusal

-- `Negotiation(startup_message, password)`; the generator runs to its first `yield`.
unfoldable pub new_negotiation : Items → Bytes → Negotiation
new_negotiation items secret = record {
  startup_items = items;
  secret = secret;
  last_received = none;
  async_messages = [];
  authtype = none;
  killinfo = none;
  authok = none;
  ready_state = none;
  phase = awaits_authentication;
  outbox = startup items ∷ [];
  turnover = sending;
  failed = false;
  refusal = none;
}

-- `Negotiation.sent`
unfoldable pub sent : Negotiation → Negotiation
sent s = record s { outbox = []; turnover = receiving }

-- `machine.send(x)`: it yields messages or None, returns (StopIteration), or raises.
pub data Sent : Type 0 where
  yields : List Message → Negotiation → Sent
  stops : Negotiation → Sent
  throws : Exception → Negotiation → Sent

-- A `return` of the generator behind an error of its own.
unfoldable pub refuse : Refusal → Negotiation → Sent
refuse r s = stops (record s { failed = true; refusal = some r; phase = finished })

-- An exception leaves the generator.
unfoldable pub leave : Exception → Negotiation → Sent
leave e s = throws e (record s { phase = finished })

unfoldable pub send_answer : Negotiation → ℕ → Outcome (Option Bytes) → Sent
send_answer s request (raise e) = leave e s
send_answer s request (ok none) = stops (record s {
  failed = true;
  refusal = some (unsupported request);
  turnover = completed_state;
  phase = finished;
})
send_answer s request (ok (some p)) = yields (password p ∷ []) (record s { phase = awaits_answer })

-- Behind the parse of the second Authentication; the type of the message is not looked at.
unfoldable pub accept : Negotiation → Outcome Message → Sent
accept s (raise e) = leave e s
accept s (ok (authentication request salt)) =
    let t = record s { authok = some (request, salt) } in
    if request == 0
    then yields [] (record t { phase = awaits_killinfo })
    else refuse (not_authenticated request) t
accept s (ok m) = leave type_error s

unfoldable pub note_killinfo : Negotiation → Outcome Message → Sent
note_killinfo s (raise e) = leave e s
note_killinfo s (ok (kill_information pid key)) =
    yields [] (record s { killinfo = some (pid, key); phase = awaits_ready })
note_killinfo s (ok m) = leave type_error s

unfoldable pub note_last_ready : Negotiation → Outcome Message → Sent
note_last_ready s (raise e) = leave e s
note_last_ready s (ok (ready xact_state)) =
    stops (record s { ready_state = some xact_state; phase = finished })
note_last_ready s (ok m) = leave type_error s

-- An Error message: it completes the negotiation, or raises where it cannot be parsed.
unfoldable pub put_refusal : ℕ → Negotiation → Outcome Message → Outcome ℕ × Negotiation
put_refusal n s (raise e) = (raise e, s)
put_refusal n s (ok m) = (
  ok n,
  record s {
    refusal = some (server_refused (error_items (ok m)));
    failed = true;
    turnover = completed_state;
  },
)

-- What the loop does with what the generator gave; `again` is the rest of the loop.
unfoldable pub after_send :
    (Negotiation → Outcome ℕ × Negotiation) → ℕ → Sent → Outcome ℕ × Negotiation
after_send again n (yields [] s) = again s
after_send again n (yields (m ∷ ms) s) = (ok n, record s { outbox = m ∷ ms; turnover = sending })
after_send again n (stops s) = (ok n, record s { turnover = completed_state })
after_send again n (throws e s) = (raise e, s)

unfoldable pub note_async :
    (Negotiation → Outcome ℕ × Negotiation) → Negotiation → Outcome Parsed → Outcome ℕ × Negotiation
note_async again s (raise e) = (raise e, s)
note_async again s (ok m) = again (record s { async_messages = s.async_messages ++ m ∷ [] })

module _ (crypt : Bytes → Bytes → Bytes) (md5_hex : Bytes → Bytes) where
  -- `b'md5' + md5(md5(password + user) + salt)`
  unfoldable pub md5_answer : Bytes → Bytes → Bytes → Bytes
  md5_answer secret user salt = b'm' ∷ b'd' ∷ b'5' ∷ md5_hex (md5_hex (secret ++ user) ++ salt)

  -- The password to send for a request; `none` where the request is not supported.
  unfoldable pub answer : Negotiation → ℕ → Bytes → Outcome (Option Bytes)
  answer s request salt =
      if request == 3
      then ok (some s.secret)
      else if request == 4
      then ok (some (crypt s.secret salt))
      else if request == 5
      then (get_item (b'u' ∷ b's' ∷ b'e' ∷ b'r' ∷ []) s.startup_items >>= λ user.
          ok (some (md5_answer s.secret user salt)))
      else ok none

  -- Behind the parse of the first Authentication
  unfoldable pub authenticate : Negotiation → Outcome Message → Sent
  authenticate s (raise e) = leave e s
  authenticate s (ok (authentication request salt)) =
      let t = record s { authtype = some (request, salt) } in
      if request == 0
      then yields [] (record t { authok = some (request, salt); phase = awaits_killinfo })
      else send_answer t request (answer t request salt)
  authenticate s (ok m) = leave type_error s

  -- What `state_machine` does with a message where it waits
  unfoldable pub machine_at : Phase → Frame → Negotiation → Sent
  machine_at awaits_authentication (t, v) s =
      if t == b'R' then authenticate s (parse_authentication v) else refuse (unexpected b'R' t) s
  machine_at awaits_answer (t, v) s = accept s (parse_authentication v)
  machine_at awaits_killinfo (t, v) s =
      if t == b'K'
      then note_killinfo s (parse_kill_information kill_information v)
      else refuse (unexpected b'K' t) s
  machine_at awaits_ready (t, v) s =
      if t == b'Z' then note_last_ready s (parse_ready v) else refuse (unexpected b'Z' t) s
  machine_at finished x s = stops s

  -- `machine.send(x)`
  unfoldable pub machine_send : Frame → Negotiation → Sent
  machine_send x s = machine_at s.phase x s

  -- One message; `n` counts it, and `again` is the rest of the loop.
  unfoldable pub put_one :
      (Negotiation → Outcome ℕ × Negotiation) → ℕ → Frame → Negotiation → Outcome ℕ × Negotiation
  put_one again n (t, v) s =
      if t == b'E'
      then if s.failed then again s else put_refusal n s (parse_notice error v)
      else elim (asynchronous t) [
        | some c ↦ note_async again s (parse c v)
        | none ↦ after_send again n (machine_send (t, v) s)
      ]

  -- The loop, with the count of the messages before
  unfoldable pub put_frames : ℕ → List Frame → Negotiation → Outcome ℕ × Negotiation
  put_frames n [] s = (ok n, s)
  put_frames n (x ∷ xs) s = put_one (λ t. put_frames (n + 1) xs t) (n + 1) x s

  -- `Negotiation.put_messages` of a list with identity `i`
  unfoldable pub put_messages : ℕ → List Frame → Negotiation → Outcome ℕ × Negotiation
  put_messages i messages s =
      if is_last i s.last_received
      then (raise runtime_error, s)
      else put_frames 0 messages (record s { last_received = some i })

-- `Closing`: the messages to send, whether it is fatal, and the state.
pub record Closing : Type 0 where
  pub closing_messages : List Message
  pub closing_fatal : Option Bool
  pub closing_turnover : Turnover

unfoldable pub new_closing : Closing
new_closing = record {
  closing_messages = disconnect ∷ [];
  closing_fatal = none;
  closing_turnover = sending;
}

unfoldable pub closing_sent : Closing → Closing
closing_sent s = record s {
  closing_messages = [];
  closing_fatal = some true;
  closing_turnover = completed_state;
}
