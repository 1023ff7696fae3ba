-- ===== src/Worker.antt =====
-- tools/pg_cluster_backend/pg_cluster_backend.py: `worker_func` and what it shares with the other
-- threads. What the database and the network do to one round of the inner loop is a parameter,
-- an `Attempt`.
pub mod Threads
pub mod Hosts
pub mod Counting
pub mod Balance
pub mod Setup
pub mod Reached
use pg_cluster.Base.{
  Bool, Bytes, List, Option, [], if◌then◌else◌, ltb, none, some, ℕ, ◌++◌, ◌+◌, ◌==◌, ◌∷◌,
}
use pg_cluster.Buffer.Stream.{limit}

-- An exception, by the handler of `worker_func` that catches it; `other` is caught by none.
pub data Fault : Type 0 where
  deadlock read_only unavailable unreachable other : Fault

-- What `execute_task` does: the transaction commits; it raises and nothing is committed; or it
-- raises after the server has committed.
pub data Task : Type 0 where
  commits : Task
  raises : Fault → Task
  unacknowledged : Fault → Task

-- What `db_local.execute("ROLLBACK")` does in the handler of a deadlock.
pub data Rollback : Type 0 where
  rolled_back no_transaction rollback_fails : Rollback

-- One round of `while do_work`: what `postgresql.open` raises, what the calls behind it raise, the
-- process id they give, the task and the rollback.
pub record Attempt : Type 0 where
  pub open_fault : Option Fault
  pub setup_fault : Option Fault
  pub pid : ℕ
  pub task : Task
  pub rollback : Rollback

-- The local variables of a thread. A connection is the host that it is open to.
pub record Worker : Type 0 where
  pub db_hosts : List Bytes
  pub db_local : Option Bytes
  pub reconnect_attempt : ℕ

-- `CLUSTERTEST`, and how many tasks the database has committed.
pub record Shared : Type 0 where
  pub operation_num : ℕ
  pub operations : ℕ
  pub is_terminate : Bool
  pub db_conns : List (ℕ × Bytes)
  pub reconnect_limit : ℕ
  pub committed : ℕ

-- Where a thread stands: at the test of the outer loop; in front of `operation_num += 1`, or between
-- its read, which gave the number, and its write; in the inner loop; or behind the end of the
-- function; `died` where an exception ended the thread.
pub data Phase : Type 0 where
  checking incrementing : Phase
  storing : ℕ → Phase
  working finished returned died : Phase

-- `worker_func` before its loop
unfoldable pub new_worker : List Bytes → Worker
new_worker hosts = record { db_hosts = hosts; db_local = none; reconnect_attempt = 0 }

-- `db_hosts.append(db_hosts.popleft())` of a deque that is not empty
unfoldable pub rotate : List Bytes → List Bytes
rotate [] = []
rotate (h ∷ hs) = hs ++ h ∷ []

-- `db_conns[pid] = db_local`
unfoldable pub put_conn : ℕ → Bytes → List (ℕ × Bytes) → List (ℕ × Bytes)
put_conn p h [] = (p, h) ∷ []
put_conn p h ((q, g) ∷ cs) = if q == p then (p, h) ∷ cs else (q, g) ∷ put_conn p h cs

-- The worker when it opens a connection: with the next host, where the limit is reached.
unfoldable pub next_host : ℕ → Worker → Worker
next_host limit w =
    if ltb w.reconnect_attempt limit
    then w
    else record w { db_hosts = rotate w.db_hosts; reconnect_attempt = 0 }

-- What the statements behind `postgresql.open` leave.
unfoldable pub set_up : Attempt → Bytes → Worker → Shared → Option Fault × Worker × Shared
set_up a host w g = elim a.setup_fault [
  | some f ↦ (some f, record w { db_local = some host }, g)
  | none ↦ (
    none,
    record w { db_local = some host },
    record g { db_conns = put_conn a.pid host g.db_conns },
  )
]

-- `postgresql.open(db_hosts[0])`; without a host that is an IndexError.
unfoldable pub open_first : Attempt → Worker → List Bytes → Shared → Option Fault × Worker × Shared
open_first a w [] g = (some other, w, g)
open_first a w (host ∷ hs) g = elim a.open_fault [
  | some f ↦ (some f, w, g)
  | none ↦ set_up a host w g
]

-- The first statement of the `try`
unfoldable pub connect : Attempt → Worker → Option Bytes → Shared → Option Fault × Worker × Shared
connect a w (some host) g = (none, w, g)
connect a w none g = let v = next_host g.reconnect_limit w in open_first a v v.db_hosts g

-- The handler of a deadlock: it goes on with the same connection.
unfoldable pub roll_back : Option Bytes → Rollback → Phase
roll_back none r = died
roll_back (some host) rolled_back = working
roll_back (some host) no_transaction = working
roll_back (some host) rollback_fails = died

-- The `except` clauses
unfoldable pub handle : Attempt → Fault → Worker → Shared → Phase × Worker × Shared
handle a deadlock w g = (roll_back w.db_local a.rollback, w, g)
handle a read_only w g = (working, record w { db_local = none; db_hosts = rotate w.db_hosts }, g)
handle a unavailable w g =
    if g.is_terminate then (returned, w, g) else (working, record w { db_local = none }, g)
handle a unreachable w g =
    (working, record w { db_local = none; reconnect_attempt = w.reconnect_attempt + 1 }, g)
handle a other w g = (died, w, g)

-- `execute_task`, and `do_work = False`
unfoldable pub execute_task : Attempt → Task → Worker → Shared → Phase × Worker × Shared
execute_task a commits w g = (checking, w, record g { committed = g.committed + 1 })
execute_task a (raises f) w g = handle a f w g
execute_task a (unacknowledged f) w g = handle a f w (record g { committed = g.committed + 1 })

unfoldable pub after_connect : Attempt → Option Fault × Worker × Shared → Phase × Worker × Shared
after_connect a (some f, w, g) = handle a f w g
after_connect a (none, w, g) = execute_task a a.task w g

-- One round of `while do_work`
unfoldable pub attempt : Attempt → Worker → Shared → Phase × Worker × Shared
attempt a w g = after_connect a (connect a w w.db_local g)

-- `db_local.close()`; of None it is an AttributeError.
unfoldable pub close : Option Bytes → Phase
close none = died
close (some host) = finished

-- The test of the outer loop, and the `break`
unfoldable pub check : Worker → Shared → Phase
check w g =
    if ltb g.operation_num g.operations
    then if g.is_terminate then close w.db_local else incrementing
    else close w.db_local

-- One step of a thread, between two points where other threads may run.
unfoldable pub step : Phase → Attempt → Worker → Shared → Phase × Worker × Shared
step checking a w g = (check w g, w, g)
step incrementing a w g = (storing g.operation_num, w, g)
step (storing n) a w g = (working, w, record g { operation_num = n + 1 })
step working a w g = attempt a w g
step finished a w g = (finished, w, g)
step returned a w g = (returned, w, g)
step died a w g = (died, w, g)
