-- ===== src/Worker/Hosts.antt =====
-- The hosts of a thread, and its count of failed connections.
use mathlib.Core.List.{Perm, perm_append_comm}
use pg_cluster.Base.{
  Bool, Bool-cases, Bytes, List, Option, Option-cases, [], arith, false, if◌then◌else◌, inl, inr,
  ltb, none, refl, some, true, ℕ, ◌<◌, ◌∷◌, ◌≡◌, ◌≢◌, ◌≤◌,
}
use pg_cluster.Buffer.Stream.{limit}
use pg_cluster.Worker.{
  Attempt, Fault, Phase, Shared, Task, Worker, after_connect, attempt, checking, commits, connect,
  deadlock, died, execute_task, finished, handle, incrementing, next_host, open_first, other,
  raises, read_only, returned, rotate, set_up, step, storing, unacknowledged, unavailable,
  unreachable, working,
}
use mathlib.Core.List.Perm

-- The most that `reconnect_attempt` gets to: the limit, and 1 where the limit is 0.
abbrev pub cap_of : ℕ → ℕ
cap_of limit = if ltb limit 1 then 1 else limit

-- The deque holds the configured hosts, each as often, in some order. The count is at most the
-- limit, and under it while there is a connection.
abbrev pub IsKept : List Bytes → Worker → Shared → Type 0
IsKept hosts w g =
    Perm w.db_hosts hosts
    × (w.reconnect_attempt ≤ cap_of g.reconnect_limit)
    × ((w.db_local ≢ none) → w.reconnect_attempt < cap_of g.reconnect_limit)

rotate-Perm : (hosts xs : List Bytes) → Perm xs hosts → Perm (rotate xs) hosts
unfolding rotate
rotate-Perm hosts [] h = h
rotate-Perm hosts (x ∷ xs) h = Perm.trans (perm_append_comm xs (x ∷ [])) h

-- While a connection is opened the count is under the limit.
abbrev IsReady : List Bytes → Worker → Shared → Type 0
IsReady hosts w g = Perm w.db_hosts hosts × (w.reconnect_attempt < cap_of g.reconnect_limit)

next_host-IsReady :
    (hosts : List Bytes) (w : Worker) (g : Shared)
    → IsKept hosts w g
    → IsReady hosts (next_host g.reconnect_limit w) g
unfolding next_host
next_host-IsReady hosts w g h = elim (Bool-cases (ltb w.reconnect_attempt g.reconnect_limit)) [
  | inl under ↦ rw under (h.0, ground arith)
  | inr reached ↦ rw reached (rotate-Perm hosts w.db_hosts h.0, ground arith)
]

abbrev IsKeptAfter : List Bytes → Phase × Worker × Shared → Type 0
IsKeptAfter hosts (p, w, g) = IsKept hosts w g

IsKeptAfter-if :
    (hosts : List Bytes) (b : Bool) (x y : Phase × Worker × Shared)
    → IsKeptAfter hosts x
    → IsKeptAfter hosts y
    → IsKeptAfter hosts (if b then x else y)
IsKeptAfter-if hosts true x y h k = h
IsKeptAfter-if hosts false x y h k = k

handle-IsKept :
    (hosts : List Bytes) (a : Attempt) (f : Fault) (w : Worker) (g : Shared)
    → IsReady hosts w g
    → IsKeptAfter hosts (handle a f w g)
unfolding handle
handle-IsKept hosts a deadlock w g h = (h.0, (omega (arith, h.1)), λ q. h.1)
handle-IsKept hosts a read_only w g h =
    (rotate-Perm hosts w.db_hosts h.0, (omega (arith, h.1)), λ q. absurd (q refl))
handle-IsKept hosts a unavailable w g h =
    IsKeptAfter-if hosts g.is_terminate _ _ (h.0, (omega (arith, h.1)), λ q. h.1)
      (h.0, (omega (arith, h.1)), λ q. absurd (q refl))
handle-IsKept hosts a unreachable w g h = (h.0, (omega (arith, h.1)), λ q. absurd (q refl))
handle-IsKept hosts a other w g h = (h.0, (omega (arith, h.1)), λ q. h.1)

execute_task-IsKept :
    (hosts : List Bytes) (a : Attempt) (t : Task) (w : Worker) (g : Shared)
    → IsReady hosts w g
    → IsKeptAfter hosts (execute_task a t w g)
unfolding execute_task
execute_task-IsKept hosts a commits w g h = (h.0, (omega (arith, h.1)), λ q. h.1)
execute_task-IsKept hosts a (raises f) w g h = handle-IsKept hosts a f w g h
execute_task-IsKept hosts a (unacknowledged f) w g h = handle-IsKept hosts a f w _ h

-- What `connect` leaves is ready, and so is what its handler is given.
abbrev IsReadyAfter : List Bytes → Option Fault × Worker × Shared → Type 0
IsReadyAfter hosts (f, w, g) = IsReady hosts w g

open_first-IsReady :
    (hosts : List Bytes) (a : Attempt) (w : Worker) (xs : List Bytes) (g : Shared)
    → IsReady hosts w g
    → IsReadyAfter hosts (open_first a w xs g)
unfolding open_first set_up
open_first-IsReady hosts a w [] g h = h
open_first-IsReady hosts a w (x ∷ xs) g h = elim (Option-cases a.open_fault) [
  | inl open_lem ↦
      rw open_lem (elim (Option-cases a.setup_fault) [ inl kept ↦ rw kept h | inr (f, e) ↦ rw e h ])
  | inr (f, e) ↦ rw e h
]

connect-IsReady :
    (hosts : List Bytes) (a : Attempt) (w : Worker) (d : Option Bytes) (g : Shared)
    → w.db_local ≡ d
    → IsKept hosts w g
    → IsReadyAfter hosts (connect a w d g)
unfolding connect
connect-IsReady hosts a w (some host) g e h = (h.0, h.2 (λ q. cc))
connect-IsReady hosts a w none g e h =
    open_first-IsReady hosts a _ _ g (next_host-IsReady hosts w g h)

after_connect-IsKept :
    (hosts : List Bytes) (a : Attempt) (x : Option Fault × Worker × Shared)
    → IsReadyAfter hosts x
    → IsKeptAfter hosts (after_connect a x)
unfolding after_connect
after_connect-IsKept hosts a (some f, w, g) h = handle-IsKept hosts a f w g h
after_connect-IsKept hosts a (none, w, g) h = execute_task-IsKept hosts a a.task w g h

-- Whatever an attempt meets, the thread has the hosts that were configured, each as often, and
-- its count of failed connections is at most the limit (1 where the limit is 0), and less while
-- it has a connection.
pub step-IsKept :
    (hosts : List Bytes) (p : Phase) (a : Attempt) (w : Worker) (g : Shared)
    → IsKept hosts w g
    → IsKept hosts (step p a w g).1 (step p a w g).2
unfolding step attempt
step-IsKept hosts checking a w g h = h
step-IsKept hosts incrementing a w g h = h
step-IsKept hosts (storing n) a w g h = h
step-IsKept hosts working a w g h =
    after_connect-IsKept hosts a (connect a w w.db_local g)
      (connect-IsReady hosts a w w.db_local g refl h)
step-IsKept hosts finished a w g h = h
step-IsKept hosts returned a w g h = h
step-IsKept hosts died a w g h = h
