-- ===== src/Worker/Setup.antt =====
-- `cluster_specific_execute` of tools/pg_cluster_backend/pg_cluster_backend.py: a function is run on the
-- first host that can be reached.
use pg_cluster.Base.{
  Bytes, List, Option, [], if◌then◌else◌, ltb, none, some, suc, zero, ℕ, ◌++◌, ◌+◌, ◌∷◌,
}
use pg_cluster.Worker.{rotate}

-- An exception, by the handler that catches it: the first group, the client that cannot connect,
-- and all that is not caught.
pub data SetupFault : Type 0 where
  server_unavailable client_cannot_connect uncaught : SetupFault

-- What one round meets on a host: an exception of `postgresql.open`, of the statement behind it,
-- of `func`.
pub record Round : Type 0 where
  pub open_fault : Option SetupFault
  pub execute_fault : Option SetupFault
  pub func_fault : Option SetupFault

-- In the loop, behind it, or left by an exception
pub data Progress : Type 0 where
  trying succeeded escaped : Progress

-- The local variables; `runs` has the hosts on which `func` ran to its end.
pub record Setup : Type 0 where
  pub db_hosts : List Bytes
  pub db_local : Option Bytes
  pub reconnect_attempt : ℕ
  pub progress : Progress
  pub runs : List Bytes

unfoldable pub new_setup : List Bytes → Setup
new_setup hosts = record {
  db_hosts = hosts;
  db_local = none;
  reconnect_attempt = 0;
  progress = trying;
  runs = [];
}

-- The `except` clauses
unfoldable pub catch : SetupFault → Setup → Setup
catch server_unavailable s = record s { db_local = none }
catch client_cannot_connect s = record s {
  db_local = none;
  reconnect_attempt = s.reconnect_attempt + 1;
}
catch uncaught s = record s { progress = escaped }

-- `func(db_local)`, and `do_work = False`
unfoldable pub run_func : Option SetupFault → Bytes → Setup → Setup
run_func (some f) host s = catch f s
run_func none host s = record s { progress = succeeded; runs = s.runs ++ host ∷ [] }

-- `db_local.execute(...)`
unfoldable pub set_name : Round → Option SetupFault → Bytes → Setup → Setup
set_name r (some f) host s = catch f (record s { db_local = some host })
set_name r none host s = run_func r.func_fault host (record s { db_local = some host })

-- `postgresql.open(db_hosts[0])`; without a host that is an IndexError.
unfoldable pub open_host : (Bytes → Round) → List Bytes → Setup → Setup
open_host net [] s = record s { progress = escaped }
open_host net (host ∷ hosts) s = elim (net host).open_fault [
  | some f ↦ catch f s
  | none ↦ set_name (net host) (net host).execute_fault host s
]

-- The host to connect to: the next one, where the limit is reached.
unfoldable pub next_setup : ℕ → Setup → Setup
next_setup bound s =
    if ltb s.reconnect_attempt bound
    then s
    else record s { db_hosts = rotate s.db_hosts; reconnect_attempt = 0 }

unfoldable pub try_round : ℕ → (Bytes → Round) → Option Bytes → Setup → Setup
try_round bound net none s = let t = next_setup bound s in open_host net t.db_hosts t
try_round bound net (some host) s = run_func (net host).func_fault host s

-- A round of `while do_work`, where each host does what `net` says
unfoldable pub round_at : ℕ → (Bytes → Round) → Progress → Setup → Setup
round_at bound net trying s = try_round bound net s.db_local s
round_at bound net succeeded s = s
round_at bound net escaped s = s

-- So many rounds
unfoldable pub run_rounds : ℕ → ℕ → (Bytes → Round) → Setup → Setup
run_rounds zero bound net s = s
run_rounds (suc n) bound net s = run_rounds n bound net (round_at bound net s.progress s)
