-- ===== src/Examples/Workers.antt =====
-- The threads of pg_cluster_backend.py at concrete schedules, and the theorems about them.
use pg_cluster.Base.{
  Bytes, List, [], arith, bytes_eq, if◌then◌else◌, none, refl, some, suc, ℕ, ◌∷◌, ◌≡◌, ◌≤◌,
}
use pg_cluster.Worker.{
  Attempt, after_connect, attempt, check, close, commits, connect, execute_task, new_worker,
  next_host, open_first, put_conn, rolled_back, set_up, step, unreachable, working,
}
use pg_cluster.Worker.Balance.{new_shared, run_threads_committed}
use pg_cluster.Worker.Counting.{IsAcknowledged}
use pg_cluster.Worker.Hosts.{IsKept, step-IsKept}
use pg_cluster.Worker.Reached.{failures, run_rounds_lem}
use pg_cluster.Worker.Setup.{Round, client_cannot_connect, new_setup, run_rounds}
use pg_cluster.Worker.Threads.{run_threads, start_threads, turn}
use mathlib.Core.List.Perm

abbrev host_a : Bytes
host_a = b'a' ∷ []

abbrev two_hosts : List Bytes
two_hosts = host_a ∷ (b'b' ∷ []) ∷ []

abbrev good : Attempt
good = record {
  open_fault = none;
  setup_fault = none;
  pid = 7;
  task = commits;
  rollback = rolled_back;
}

-- The server cannot be reached.
abbrev refused : Attempt
refused = record good { open_fault = some unreachable }

good-IsAcknowledged : IsAcknowledged good
good-IsAcknowledged f e = cc

-- Two threads read the count before either of them writes it.
abbrev overlapping : List (ℕ × Attempt)
overlapping =
    (0, good)
    ∷ (1, good)
    ∷ (0, good)
    ∷ (1, good)
    ∷ (0, good)
    ∷ (1, good)
    ∷ (0, good)
    ∷ (1, good)
    ∷ (0, good)
    ∷ (1, good)
    ∷ []

-- One increment is lost: of one operation that was asked for two are made, while the count is one,
-- and the test fails though nothing is lost.
overlapping_committed :
    let k = (run_threads overlapping (start_threads 2 two_hosts, new_shared 1 3)).1 in
    (k.committed ≡ 2) × (k.operation_num ≡ 1)
unfolding run_threads start_threads new_shared new_worker turn step check attempt after_connect
    connect next_host open_first set_up execute_task put_conn close
overlapping_committed = (refl, refl)

step-IsKept_example :
    IsKept two_hosts
      (step working refused (new_worker two_hosts) (new_shared 1 3)).1
      (step working refused (new_worker two_hosts) (new_shared 1 3)).2
unfolding new_worker new_shared
step-IsKept_example =
    step-IsKept two_hosts working refused (new_worker two_hosts) (new_shared 1 3)
      (Perm.refl two_hosts, (omega arith), λ q. omega arith)

run_threads_committed_example :
    1 ≤ (run_threads overlapping (start_threads 2 two_hosts, new_shared 1 3)).1.committed
unfolding run_threads start_threads new_shared new_worker turn step check attempt after_connect
    connect next_host open_first set_up execute_task put_conn close
run_threads_committed_example =
    run_threads_committed 2 1 3 two_hosts overlapping (omega arith)
      (
        good-IsAcknowledged,
        (
          good-IsAcknowledged,
          (
            good-IsAcknowledged,
            (
              good-IsAcknowledged,
              (
                good-IsAcknowledged,
                (
                  good-IsAcknowledged,
                  (
                    good-IsAcknowledged,
                    (good-IsAcknowledged, (good-IsAcknowledged, (good-IsAcknowledged, tt))),
                  ),
                ),
              ),
            ),
          ),
        ),
      )
      refl

-- The first host is down, the second one answers.
abbrev half_down : Bytes → Round
half_down host =
    if bytes_eq host (1 ∷ [])
    then record { open_fault = some client_cannot_connect; execute_fault = none; func_fault = none }
    else record { open_fault = none; execute_fault = none; func_fault = none }

run_rounds_lem_example :
    (run_rounds
      (suc (failures 2 ((1 ∷ []) ∷ [])))
      2
      half_down
      (new_setup ((1 ∷ []) ∷ (5 ∷ []) ∷ []))).runs
    ≡ (5 ∷ []) ∷ []
unfolding bytes_eq
run_rounds_lem_example =
    run_rounds_lem 2 half_down ((1 ∷ []) ∷ []) (5 ∷ []) [] (omega arith) (refl, tt)
      (refl, refl, refl)
