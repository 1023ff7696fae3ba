-- ===== src/Worker/Threads.antt =====
-- The threads that `__main__` of pg_cluster_backend.py starts, run in any interleaving, and
-- `validate_test`. The test of `operation_num`, the read and the write of its increment are three
-- steps.
use pg_cluster.Base.{Bool, Bytes, List, [], suc, zero, ℕ, ◌*◌, ◌+◌, ◌==◌, ◌∷◌}
use pg_cluster.Worker.{Attempt, Phase, Shared, Worker, checking, new_worker, step}

abbrev pub WorkerThread : Type 0
WorkerThread = Phase × Worker

-- `Thread(target=worker_func)` for each number
unfoldable pub start_threads : ℕ → List Bytes → List WorkerThread
start_threads zero hosts = []
start_threads (suc n) hosts = (checking, new_worker hosts) ∷ start_threads n hosts

-- The thread with the number `i` makes a step.
unfoldable pub turn : ℕ → Attempt → Shared → List WorkerThread → List WorkerThread × Shared
turn i a g [] = ([], g)
turn zero a g ((p, w) ∷ ts) = let (q, v, k) = step p a w g in ((q, v) ∷ ts, k)
turn (suc i) a g (t ∷ ts) = let (us, k) = turn i a g ts in (t ∷ us, k)

-- The steps that the scheduler chooses, each with what the environment does in it
unfoldable pub run_threads :
    List (ℕ × Attempt) → List WorkerThread × Shared → List WorkerThread × Shared
run_threads [] s = s
run_threads ((i, a) ∷ more) (ts, g) = run_threads more (turn i a g ts)

-- `sum(balance)` behind the tasks that were committed: each adds one.
unfoldable pub total_balance : ℕ → ℕ → ℕ
total_balance accounts tasks = accounts * 100 + tasks

-- `validate_test`: whether it logs a success.
unfoldable pub validate_test : ℕ → ℕ → ℕ → Bool
validate_test accounts operations balance = balance == accounts * 100 + operations
