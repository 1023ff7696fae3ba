-- ===== src/Driver/Transaction.antt =====
-- The class `Transaction` of driver/pq3.py, over a session with the server.
use pg_cluster.Base.{
  Bool, Bytes, Option, Outcome, [], bytes_eq, codes, false, if◌then◌else◌, none, not, ok, raise,
  some, true, value_error, ◌&&◌, ◌++◌, ◌==◌, ◌>>=◌, ◌||◌, ◌∷◌,
}
use pg_cluster.Text.Quoting.{double}

-- The exceptions: of `raise_client_error` those with the codes --OPE and 25P02, ActiveTransactionError,
-- others that `execute` raises, ValueError and RuntimeError.

pub data Fault : Type 0 where
  operation_error failed_transaction active_transaction : Fault
  server_error value_fault runtime_fault : Fault

-- What a transaction uses of the database: `execute(query)`, `pq.state`, and `closed`.
pub record Session (W : Type 0) : Type 0 where
  pub execute : Bytes → W → Option Fault × W
  pub state_of : W → Bytes
  pub closed : W → Bool

-- 'initialized', 'open' (`opened`), 'prepared', 'committed' and 'aborted'
pub data XactState : Type 0 where
  initialized opened prepared committed aborted : XactState

-- 'block' and 'savepoint'
pub data XactType : Type 0 where
  block savepoint : XactType

-- `name` is `hex(id(self))`.
pub record Transaction : Type 0 where
  pub name : Bytes
  pub isolation : Option Bytes
  pub mode : Option Bytes
  pub state : XactState
  pub type : Option XactType

unfoldable pub new_transaction : Bytes → Option Bytes → Option Bytes → Transaction
new_transaction name isolation mode = record {
  name = name;
  isolation = isolation;
  mode = mode;
  state = initialized;
  type = none;
}

-- `;` in a text
unfoldable pub has_semicolon : Bytes → Bool
has_semicolon [] = false
has_semicolon (c ∷ cs) = (c == 59) || has_semicolon cs

-- `q += front + option`, where there is one
unfoldable pub add_option : Bytes → Bytes → Option Bytes → Outcome Bytes
add_option q front none = ok q
add_option q front (some text) =
    if has_semicolon text then raise value_error else ok (q ++ (front ++ text))

unfoldable pub start_xact_string : Option Bytes → Option Bytes → Outcome Bytes
start_xact_string isolation mode = do
  q ← add_option (codes "START TRANSACTION") (codes " ISOLATION LEVEL ") isolation
  p ← add_option q (codes " ") mode
  ok (p ++ codes ";")

unfoldable pub savepoint_xact_string : Bytes → Bytes
savepoint_xact_string name = codes "SAVEPOINT \"xact(" ++ (double 34 name ++ codes ")\";")

unfoldable pub release_string : Bytes → Bytes
release_string name = codes "RELEASE \"xact(" ++ (double 34 name ++ codes ")\";")

unfoldable pub rollback_to_string : Bytes → Bytes
rollback_to_string name =
    codes "ROLLBACK TO \"xact("
    ++ (double 34 name ++ (codes ")\"; RELEASE \"xact(" ++ (double 34 name ++ codes ")\";")))

-- How a block is left: `typ` is None, an Exception, or another BaseException.
pub data Leaving : Type 0 where
  returns excepts interrupts : Leaving

unfoldable pub is_configured : Transaction → Bool
is_configured t = not (is_none t.isolation && is_none t.mode)
  where
    is_none : Option Bytes → Bool
    is_none none = true
    is_none (some v) = false

module _ {W : Type 0} (db : Session W) where
  -- What a method of a transaction does: the exception that it raises, the object and the session.
  abbrev pub Called : Type 0
  Called = Option Fault × Transaction × W

  -- `self.database.execute(q)`, and then the assignment of the state
  unfoldable pub execute_then : XactState → Transaction → Option Fault × W → Called
  execute_then next t (none, w) = (none, record t { state = next }, w)
  execute_then next t (some f, w) = (some f, t, w)

  unfoldable pub start_block : Transaction → W → Outcome Bytes → Called
  start_block t w (raise e) = (some value_fault, t, w)
  start_block t w (ok q) = execute_then opened t (db.execute q w)

  unfoldable pub start_savepoint : Transaction → W → Called
  start_savepoint t w =
      if is_configured t
      then (some operation_error, t, w)
      else execute_then opened t (db.execute (savepoint_xact_string t.name) w)

  -- `start` in the state 'initialized'
  unfoldable pub start_new : Transaction → W → Called
  start_new t w =
      if bytes_eq (db.state_of w) (codes "I")
      then start_block (record t { type = some block }) w (start_xact_string t.isolation t.mode)
      else start_savepoint (record t { type = some savepoint }) w

  unfoldable pub start : Transaction → W → Called
  start t w = elim t.state [
    | opened ↦ (none, t, w)
    | initialized ↦ start_new t w
    | _ ↦ (some operation_error, t, w)
  ]

  unfoldable pub commit_string : Transaction → Bytes
  commit_string t = elim t.type [ some block ↦ codes "COMMIT" | _ ↦ release_string t.name ]

  unfoldable pub commit : Transaction → W → Called
  commit t w = elim t.state [
    | committed ↦ (none, t, w)
    | opened ↦ execute_then committed t (db.execute (commit_string t) w)
    | _ ↦ (some operation_error, t, w)
  ]

  unfoldable pub rollback_open : Transaction → W → Called
  rollback_open t w = elim t.type [
    | none ↦ (some runtime_fault, t, w)
    | some block ↦ execute_then aborted t (db.execute (codes "ABORT;") w)
    | some savepoint ↦ execute_then aborted t (db.execute (rollback_to_string t.name) w)
  ]

  unfoldable pub rollback : Transaction → W → Called
  rollback t w = elim t.state [
    | aborted ↦ (none, t, w)
    | prepared ↦ rollback_open t w
    | opened ↦ rollback_open t w
    | _ ↦ (some operation_error, t, w)
  ]

  -- `if not self.database.closed: self.rollback()`, and `raise`, unless the rollback raised
  unfoldable pub raise_after : Option Fault → Called → Called
  raise_after f (none, s, v) = (f, s, v)
  raise_after f (some g, s, v) = (some g, s, v)

  unfoldable pub rollback_then : Option Fault → Transaction → W → Called
  rollback_then f t w = if db.closed w then (f, t, w) else raise_after f (rollback t w)

  unfoldable pub after_commit : Called → Called
  after_commit (some active_transaction, t, w) =
      if db.closed w
      then (some active_transaction, t, w)
      else raise_after (some active_transaction) (rollback (record t { state = opened }) w)
  after_commit c = c

  -- `__exit__`
  unfoldable pub exit_xact : Leaving → Transaction → W → Called
  exit_xact returns t w =
      if bytes_eq (db.state_of w) (codes "E")
      then rollback_then (some failed_transaction) t w
      else after_commit (commit t w)
  exit_xact excepts t w = rollback_then none t w
  exit_xact interrupts t w = (none, t, w)

  -- `with transaction: body`, where the body does not use the object
  unfoldable pub after_exit : Leaving → Called → Leaving × W
  after_exit left (none, t, w) = (left, w)
  after_exit left (some f, t, w) = (excepts, w)

  unfoldable pub run_body : (W → Leaving × W) → Called → Leaving × W
  run_body body (some f, t, w) = (excepts, w)
  run_body body (none, t, w) = let (left, v) = body w in after_exit left (exit_xact left t v)

  unfoldable pub with_xact : Transaction → (W → Leaving × W) → W → Leaving × W
  with_xact t body w = run_body body (start t w)
