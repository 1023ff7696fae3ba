-- ===== src/Worker/Balance.antt =====
-- What `validate_test` finds when every thread is through.
use pg_cluster.Base.{
  Bytes, List, [], ap, arith, false, inl, inr, length, refl, suc, zero, ℕ, ◌+◌, ◌<◌, ◌∙◌, ◌∷◌, ◌≡◌,
  ◌≤◌, ◌⊎◌,
}
use pg_cluster.Buffer.Stream.{limit}
use pg_cluster.Worker.{Attempt, Phase, Shared, checking, step}
use pg_cluster.Worker.Counting.{
  IsAcknowledged, IsStored, IsStored-mono, is_finished, made, step_lem, total,
}
use pg_cluster.Worker.Threads.{WorkerThread, run_threads, start_threads, turn}

-- What each of some threads has read is at most a bound.
abbrev AllStored : ℕ → List WorkerThread → Type 0
AllStored b [] = Unit
AllStored b ((p, w) ∷ ts) = IsStored b p × AllStored b ts

AllStored-mono : (b c : ℕ) (ts : List WorkerThread) → b ≤ c → AllStored b ts → AllStored c ts
AllStored-mono b c [] le h = tt
AllStored-mono b c ((p, w) ∷ ts) le h = (IsStored-mono b c p le h.0, AllStored-mono b c ts le h.1)

-- What a turn of one of some threads does, where the others have begun `rest` tasks.
record IsCountedTurn (rest : ℕ) (ts : List WorkerThread) (g : Shared) (us : List WorkerThread)
    (k : Shared) : Type 0 where
  like_operations : k.operations ≡ g.operations
  like_flag : k.is_terminate ≡ g.is_terminate
  grows : g.committed + total made ts ≤ k.committed + total made us
  number : k.operation_num ≤ rest + (k.committed + total made us)
  stored : AllStored (rest + (k.committed + total made us)) us
  through :
      (total is_finished us ≤ total is_finished ts)
      ⊎ (g.operations ≤ rest + (k.committed + total made us))

turn-IsCountedTurn :
    (rest i : ℕ) (a : Attempt) (g : Shared) (ts : List WorkerThread)
    → IsAcknowledged a
    → g.is_terminate ≡ false
    → g.operation_num ≤ rest + (g.committed + total made ts)
    → AllStored (rest + (g.committed + total made ts)) ts
    → IsCountedTurn rest ts g (turn i a g ts).0 (turn i a g ts).1
unfolding turn
turn-IsCountedTurn rest i a g [] told goes n s = record {
  like_operations = refl;
  like_flag = refl;
  grows = omega arith;
  number = n;
  stored = tt;
  through = inl (omega arith);
}
turn-IsCountedTurn rest zero a g ((p, w) ∷ ts) told goes n s =
    let before : rest + (g.committed + (made p + total made ts))
        ≡ rest + total made ts + (g.committed + made p) =
      omega arith in
    let c = step_lem (rest + total made ts) g p a w told goes (rw before at n) (rw before at s.0) in
    let k = (step p a w g).2 in
    let q = (step p a w g).0 in
    let behind' : rest + total made ts + (k.committed + made q)
        ≡ rest + (k.committed + (made q + total made ts)) =
      omega arith in
    record {
      like_operations = c.like_operations;
      like_flag = c.like_flag;
      grows = omega (arith, c.grows);
      number = rw behind' at c.number;
      stored = (
        rw behind' at c.stored,
        AllStored-mono (rest + (g.committed + (made p + total made ts))) _ ts
            (omega (arith, c.grows)) s.1,
      );
      through = elim c.through [
        | inl fewer ↦ inl (omega (arith, fewer))
        | inr enough ↦ inr (rw behind' at enough)
      ];
    }
turn-IsCountedTurn rest (suc i) a g ((p, w) ∷ ts) told goes n s =
    let before : rest + (g.committed + (made p + total made ts))
        ≡ rest + made p + (g.committed + total made ts) =
      omega arith in
    let c =
      turn-IsCountedTurn (rest + made p) i a g ts told goes (rw before at n)
        (AllStored-mono _ _ ts (omega (arith, before)) s.1) in
    let k = (turn i a g ts).1 in
    let us = (turn i a g ts).0 in
    let behind' : rest + made p + (k.committed + total made us)
        ≡ rest + (k.committed + (made p + total made us)) =
      omega arith in
    record {
      like_operations = c.like_operations;
      like_flag = c.like_flag;
      grows = omega (arith, c.grows);
      number = rw behind' at c.number;
      stored = (
        IsStored-mono (rest + (g.committed + (made p + total made ts))) _ p (omega (arith, c.grows))
            s.0,
        rw behind' at c.stored,
      );
      through = elim c.through [
        | inl fewer ↦ inl (omega (arith, fewer))
        | inr enough ↦ inr (rw behind' at enough)
      ];
    }

-- What holds between the steps, while nobody asks the threads to end.
record IsGoing (ops : ℕ) (ts : List WorkerThread) (g : Shared) : Type 0 where
  asked : g.operations ≡ ops
  goes_on : g.is_terminate ≡ false
  number : g.operation_num ≤ 0 + (g.committed + total made ts)
  stored : AllStored (0 + (g.committed + total made ts)) ts
  all_through : (total is_finished ts ≡ 0) ⊎ (ops ≤ 0 + (g.committed + total made ts))

turn-IsGoing :
    (ops i : ℕ) (a : Attempt) (g : Shared) (ts : List WorkerThread)
    → IsAcknowledged a
    → IsGoing ops ts g
    → IsGoing ops (turn i a g ts).0 (turn i a g ts).1
turn-IsGoing ops i a g ts told v =
    let c = turn-IsCountedTurn 0 i a g ts told v.goes_on v.number v.stored in
    record {
      asked = c.like_operations ∙ v.asked;
      goes_on = c.like_flag ∙ v.goes_on;
      number = c.number;
      stored = c.stored;
      all_through = elim c.through [
        | inl fewer ↦ elim v.all_through [
          | inl none_yet ↦ inl (omega (arith, fewer, none_yet))
          | inr enough ↦ inr (omega (arith, enough, c.grows))
        ]
        | inr enough ↦ inr (omega (arith, enough, v.asked))
      ];
    }

abbrev pub AllAcknowledged : List (ℕ × Attempt) → Type 0
AllAcknowledged [] = Unit
AllAcknowledged ((i, a) ∷ more) = IsAcknowledged a × AllAcknowledged more

run_threads-IsGoing :
    (ops : ℕ) (schedule : List (ℕ × Attempt)) (ts : List WorkerThread) (g : Shared)
    → AllAcknowledged schedule
    → IsGoing ops ts g
    → IsGoing ops (run_threads schedule (ts, g)).0 (run_threads schedule (ts, g)).1
unfolding run_threads
run_threads-IsGoing ops [] ts g h v = v
run_threads-IsGoing ops ((i, a) ∷ more) ts g h v =
    run_threads-IsGoing ops more (turn i a g ts).0 (turn i a g ts).1 h.1
      (turn-IsGoing ops i a g ts h.0 v)

-- `CLUSTERTEST` when the threads are started
unfoldable pub new_shared : ℕ → ℕ → Shared
new_shared operations limit = record {
  operation_num = 0;
  operations = operations;
  is_terminate = false;
  db_conns = [];
  reconnect_limit = limit;
  committed = 0;
}

start_totals :
    (n b : ℕ) (hosts : List Bytes)
    → (length (start_threads n hosts) ≡ n)
      × (total is_finished (start_threads n hosts) ≡ 0)
      × AllStored b (start_threads n hosts)
unfolding start_threads
start_totals zero b hosts = (refl, refl, tt)
start_totals (suc n) b hosts =
    let (l, f, s) = start_totals n b hosts in ((omega (arith, l)), (omega (arith, f)), (tt, s))

start_threads-IsGoing :
    (n ops limit : ℕ) (hosts : List Bytes)
    → IsGoing ops (start_threads n hosts) (new_shared ops limit)
unfolding new_shared
start_threads-IsGoing n ops limit hosts =
    let (l, f, s) = start_totals n _ hosts in
    record { asked = refl; goes_on = refl; number = omega arith; stored = s; all_through = inl f }

-- A thread is in one phase.
one_phase : (p : Phase) → made p + is_finished p ≤ 1
one_phase checking = omega arith
one_phase _ = omega arith

phases_le : (ts : List WorkerThread) → total made ts + total is_finished ts ≤ length ts
phases_le [] = omega arith
phases_le ((p, w) ∷ ts) = omega (arith, one_phase p, phases_le ts)

length-turn :
    (i : ℕ) (a : Attempt) (g : Shared) (ts : List WorkerThread)
    → length (turn i a g ts).0 ≡ length ts
unfolding turn
length-turn i a g [] = refl
length-turn zero a g ((p, w) ∷ ts) = refl
length-turn (suc i) a g (t ∷ ts) = ap suc (length-turn i a g ts)

length-run_threads :
    (schedule : List (ℕ × Attempt)) (ts : List WorkerThread) (g : Shared)
    → length (run_threads schedule (ts, g)).0 ≡ length ts
unfolding run_threads
length-run_threads [] ts g = refl
length-run_threads ((i, a) ∷ more) ts g =
    length-run_threads more (turn i a g ts).0 (turn i a g ts).1 ∙ length-turn i a g ts

-- However the threads are interleaved, also between the read and the write of an increment of the
-- count, and whatever fails: once all of them have finished, at least the operations that were
-- asked for are committed, provided that there is a thread, no commit went unacknowledged and
-- nobody asked the threads to end.
pub run_threads_committed :
    (n ops limit : ℕ) (hosts : List Bytes) (schedule : List (ℕ × Attempt))
    → 0 < n
    → AllAcknowledged schedule
    → total is_finished (run_threads schedule (start_threads n hosts, new_shared ops limit)).0 ≡ n
    → ops ≤ (run_threads schedule (start_threads n hosts, new_shared ops limit)).1.committed
run_threads_committed n ops limit hosts schedule some_thread told over =
    let ts = start_threads n hosts in
    let r = run_threads schedule (ts, new_shared ops limit) in
    let v =
      run_threads-IsGoing ops schedule ts (new_shared ops limit) told
        (start_threads-IsGoing n ops limit hosts) in
    let l = length-run_threads schedule ts (new_shared ops limit) in
    let (l0, f0, s0) = start_totals n 0 hosts in
    let all_phases = phases_le r.0 in
    elim v.all_through [
      | inl none_yet ↦ absurd (omega (arith, none_yet, over, some_thread))
      | inr enough ↦ omega (arith, enough, all_phases, over, l, l0)
    ]
