-- ===== src/Worker/Counting.antt =====
-- How many tasks are committed when the threads are through.
use pg_cluster.Base.{
  Bool, Bytes, List, Option, Option-cases, [], arith, false, if_cases, if◌then◌else◌, inl, inr, ltb,
  none, refl, some, true, ℕ, ◌+◌, ◌∷◌, ◌≡◌, ◌≢◌, ◌≤◌, ◌⊎◌,
}
use pg_cluster.Worker.{
  Attempt, Fault, Phase, Rollback, Shared, Task, Worker, after_connect, attempt, check, checking,
  close, commits, connect, deadlock, died, execute_task, finished, handle, incrementing,
  no_transaction, open_first, other, raises, read_only, returned, roll_back, rollback_fails,
  rolled_back, set_up, step, storing, unacknowledged, unavailable, unreachable, working,
}
use pg_cluster.Worker.Threads.{WorkerThread}

-- A thread whose task is begun and not committed, or that is gone, as a number
abbrev pub made : Phase → ℕ
made working = 1
made returned = 1
made died = 1
made _ = 0

abbrev pub is_finished : Phase → ℕ
is_finished finished = 1
is_finished _ = 0

abbrev pub total : (Phase → ℕ) → List WorkerThread → ℕ
total f [] = 0
total f ((p, w) ∷ ts) = f p + total f ts

-- What a thread has read of the count is at most a bound.
abbrev pub IsStored : ℕ → Phase → Type 0
IsStored b (storing n) = n ≤ b
IsStored b _ = Unit

pub IsStored-mono : (b c : ℕ) (p : Phase) → b ≤ c → IsStored b p → IsStored c p
IsStored-mono b c (storing n) le h = omega (arith, le, h)
IsStored-mono b c checking le h = tt
IsStored-mono b c incrementing le h = tt
IsStored-mono b c working le h = tt
IsStored-mono b c finished le h = tt
IsStored-mono b c returned le h = tt
IsStored-mono b c died le h = tt

-- No task is committed without the thread being told so.
abbrev pub IsAcknowledged : Attempt → Type 0
IsAcknowledged a = (f : Fault) → a.task ≢ unacknowledged f

-- What a step of a thread does to the tasks that are begun, where the others have begun `rest`.
pub record IsCounted (rest : ℕ) (p : Phase) (g : Shared) (q : Phase) (k : Shared) : Type 0 where
  pub like_operations : k.operations ≡ g.operations
  pub like_flag : k.is_terminate ≡ g.is_terminate
  pub grows : g.committed + made p ≤ k.committed + made q
  pub number : k.operation_num ≤ rest + (k.committed + made q)
  pub stored : IsStored (rest + (k.committed + made q)) q
  pub through : (is_finished q ≤ is_finished p) ⊎ (g.operations ≤ rest + (k.committed + made q))

abbrev pub IsCountedStep : ℕ → Phase → Shared → Phase × Worker × Shared → Type 0
IsCountedStep rest p g (q, v, k) = IsCounted rest p g q k

-- A handler goes on with the task, or leaves the thread.
abbrev IsHandled : Shared → Phase × Worker × Shared → Type 0
IsHandled g (q, v, k) = (k ≡ g) × (is_finished q ≡ 0) × (made q ≡ 1) × ((b : ℕ) → IsStored b q)

roll_back_phase :
    (d : Option Bytes) (r : Rollback)
    → (is_finished (roll_back d r) ≡ 0)
      × (made (roll_back d r) ≡ 1)
      × ((b : ℕ) → IsStored b (roll_back d r))
unfolding roll_back
roll_back_phase none r = (refl, refl, λ b. tt)
roll_back_phase (some h) rolled_back = (refl, refl, λ b. tt)
roll_back_phase (some h) no_transaction = (refl, refl, λ b. tt)
roll_back_phase (some h) rollback_fails = (refl, refl, λ b. tt)

IsHandled-if :
    (g : Shared) (b : Bool) (x y : Phase × Worker × Shared)
    → IsHandled g x
    → IsHandled g y
    → IsHandled g (if b then x else y)
IsHandled-if g true x y h k = h
IsHandled-if g false x y h k = k

handle-IsHandled :
    (a : Attempt) (f : Fault) (w : Worker) (g : Shared) → IsHandled g (handle a f w g)
unfolding handle
handle-IsHandled a deadlock w g =
    let (f, m, s) = roll_back_phase w.db_local a.rollback in (refl, f, m, s)
handle-IsHandled a read_only w g = (refl, refl, refl, λ b. tt)
handle-IsHandled a unavailable w g =
    IsHandled-if g g.is_terminate _ _ (refl, refl, refl, λ b. tt) (refl, refl, refl, λ b. tt)
handle-IsHandled a unreachable w g = (refl, refl, refl, λ b. tt)
handle-IsHandled a other w g = (refl, refl, refl, λ b. tt)

-- Nothing that is counted differs.
abbrev IsLike : Shared → Shared → Type 0
IsLike g k =
    (k.operations ≡ g.operations)
    × (k.is_terminate ≡ g.is_terminate)
    × (k.operation_num ≡ g.operation_num)
    × (k.committed ≡ g.committed)

open_first-IsLike :
    (a : Attempt) (w : Worker) (xs : List Bytes) (g : Shared) → IsLike g (open_first a w xs g).2
unfolding open_first set_up
open_first-IsLike a w [] g = (refl, refl, refl, refl)
open_first-IsLike a w (x ∷ xs) g = elim (Option-cases a.open_fault) [
  | inl open_lem ↦ rw open_lem (elim (Option-cases a.setup_fault) [
    | inl kept ↦ rw kept (refl, refl, refl, refl)
    | inr (f, e) ↦ rw e (refl, refl, refl, refl)
  ])
  | inr (f, e) ↦ rw e (refl, refl, refl, refl)
]

connect-IsLike :
    (a : Attempt) (w : Worker) (d : Option Bytes) (g : Shared) → IsLike g (connect a w d g).2
unfolding connect
connect-IsLike a w (some host) g = (refl, refl, refl, refl)
connect-IsLike a w none g = open_first-IsLike a _ _ g

module _ (rest : ℕ) (g : Shared) where
  still_lem :
      (p : Phase)
      → g.operation_num ≤ rest + (g.committed + made p)
      → IsStored (rest + (g.committed + made p)) p
      → IsCounted rest p g p g
  still_lem p n s = record {
    like_operations = refl;
    like_flag = refl;
    grows = omega arith;
    number = n;
    stored = s;
    through = inl (omega arith);
  }

  close_lem :
      (d : Option Bytes)
      → g.operation_num ≤ rest + (g.committed + 0)
      → g.operations ≤ g.operation_num
      → IsCounted rest checking g (close d) g
  unfolding close
  close_lem none n h = record {
    like_operations = refl;
    like_flag = refl;
    grows = omega arith;
    number = omega (arith, n);
    stored = tt;
    through = inl (omega arith);
  }
  close_lem (some x) n h = record {
    like_operations = refl;
    like_flag = refl;
    grows = omega arith;
    number = n;
    stored = tt;
    through = inr (omega (arith, n, h));
  }

  check_lem :
      (w : Worker)
      → g.operation_num ≤ rest + (g.committed + 0)
      → g.is_terminate ≡ false
      → IsCounted rest checking g (check w g) g
  unfolding check
  check_lem w n goes =
      if_cases (λ q. IsCounted rest checking g q g) (ltb g.operation_num g.operations) _ _
        (λ more.
          if_cases (λ q. IsCounted rest checking g q g) g.is_terminate _ _
            (λ ends. absurd (absurd_flag g.is_terminate goes ends))
            (λ _. record {
              like_operations = refl;
              like_flag = refl;
              grows = omega arith;
              number = n;
              stored = tt;
              through = inl (omega arith);
            }))
        (λ enough. close_lem w.db_local n (ground arith))
    where
      absurd_flag : (b : Bool) → b ≡ false → b ≡ true → ⊥
      absurd_flag true p q = cc
      absurd_flag false p q = cc

  -- A handler, behind changes that are not counted
  handled_lem :
      (k : Shared) (x : Phase × Worker × Shared)
      → g.operation_num ≤ rest + (g.committed + 1)
      → IsLike g k
      → IsHandled k x
      → IsCountedStep rest working g x
  handled_lem k (q, v, l) n (ops, flag, num, kept) (untouched, f, m, s) = record {
    like_operations = rw untouched ops;
    like_flag = rw untouched flag;
    grows = rw (untouched, m) (omega (arith, kept));
    number = rw (untouched, m) (omega (arith, num, kept, n));
    stored = s _;
    through = inl (rw f (omega arith));
  }

  execute_task_lem :
      (k : Shared) (a : Attempt) (t : Task) (w : Worker)
      → g.operation_num ≤ rest + (g.committed + 1)
      → ((f : Fault) → t ≢ unacknowledged f)
      → IsLike g k
      → IsCountedStep rest working g (execute_task a t w k)
  unfolding execute_task
  execute_task_lem k a commits w n h (ops, flag, num, kept) = record {
    like_operations = ops;
    like_flag = flag;
    grows = omega (arith, kept);
    number = omega (arith, num, kept, n);
    stored = tt;
    through = inl (omega arith);
  }
  execute_task_lem k a (raises f) w n h like =
      handled_lem k (handle a f w k) n like (handle-IsHandled a f w k)
  execute_task_lem k a (unacknowledged f) w n h like = absurd (h f refl)

  after_connect_lem :
      (a : Attempt) (x : Option Fault × Worker × Shared)
      → g.operation_num ≤ rest + (g.committed + 1)
      → IsAcknowledged a
      → IsLike g x.2
      → IsCountedStep rest working g (after_connect a x)
  unfolding after_connect
  after_connect_lem a (some f, w, k) n h like =
      handled_lem k (handle a f w k) n like (handle-IsHandled a f w k)
  after_connect_lem a (none, w, k) n h like = execute_task_lem k a a.task w n h like

  -- Where the count, and what the thread has read of it, are at most the number of tasks that are
  -- begun, that is so behind a step.
  pub step_lem :
      (p : Phase) (a : Attempt) (w : Worker)
      → IsAcknowledged a
      → g.is_terminate ≡ false
      → g.operation_num ≤ rest + (g.committed + made p)
      → IsStored (rest + (g.committed + made p)) p
      → IsCountedStep rest p g (step p a w g)
  unfolding step attempt
  step_lem checking a w h goes n s = check_lem w n goes
  step_lem incrementing a w h goes n s = record {
    like_operations = refl;
    like_flag = refl;
    grows = omega arith;
    number = n;
    stored = n;
    through = inl (omega arith);
  }
  step_lem (storing m) a w h goes n s = record {
    like_operations = refl;
    like_flag = refl;
    grows = omega arith;
    number = omega (arith, s);
    stored = tt;
    through = inl (omega arith);
  }
  step_lem working a w h goes n s =
      after_connect_lem a (connect a w w.db_local g) n h (connect-IsLike a w w.db_local g)
  step_lem finished a w h goes n s = still_lem finished n s
  step_lem returned a w h goes n s = still_lem returned n s
  step_lem died a w h goes n s = still_lem died n s
