-- ===== src/Examples/Blocks.antt =====
-- A server with one number as its data, and the theorems about `Transaction` of driver/pq3.py with it.
use pg_cluster.Base.{
  Bool, Bytes, List, Option, [], ap, arith, bytes_eq, codes, drop, false, if◌then◌else◌, inl, inr,
  length, length-append, none, refl, some, take, take-append, true, ℕ, ◌++◌, ◌+◌, ◌-◌, ◌==◌, ◌∙◌,
  ◌∷◌, ◌≡◌, ◌≢◌,
}
use pg_cluster.Driver.Atomic.{IsAtomic, with_xact-IsAtomic}
use pg_cluster.Driver.Level.{IsNested, Level, below, inner, outer}
use pg_cluster.Driver.Nested.{with_xact-IsNested}
use pg_cluster.Driver.Server.{Does, Server, View, active, failed, idle, letter_of}
use pg_cluster.Driver.Transaction.{
  Fault, Leaving, Session, add_option, after_commit, after_exit, commit, commit_string, excepts,
  execute_then, exit_xact, interrupts, is_configured, new_transaction, raise_after, release_string,
  returns, rollback, rollback_open, rollback_then, rollback_to_string, run_body,
  savepoint_xact_string, server_error, start, start_block, start_new, start_savepoint,
  start_xact_string, with_xact,
}
use pg_cluster.Text.Quoting.{double, halve, halve-double}

-- Whether the connection is lost, and what the session holds
abbrev Held : Type 0
Held = Bool × View ℕ

-- The name in `xact(name)`, up to the three last characters
abbrev name_in : Bytes → Bytes
name_in v = halve 34 false (take (length v - 3) v)

-- The commands, told apart by their first two letters
abbrev set_to : View ℕ → Option Fault × View ℕ
set_to v = (none, v)

abbrev refused : View ℕ → Option Fault × View ℕ
refused v = (some server_error, v)

abbrev run_start : View ℕ → Option Fault × View ℕ
run_start (idle d) = set_to (active d [] d)
run_start v = refused v

abbrev run_savepoint : Bytes → View ℕ → Option Fault × View ℕ
run_savepoint name (active b s d) = set_to (active b ((name, d) ∷ s) d)
run_savepoint name v = refused v

abbrev run_release : View ℕ → Option Fault × View ℕ
run_release (active b (p ∷ s) d) = set_to (active b s d)
run_release v = refused v

abbrev run_rollback : View ℕ → Option Fault × View ℕ
run_rollback (active b ((n, x) ∷ s) d) = set_to (active b s x)
run_rollback (failed b ((n, x) ∷ s)) = set_to (active b s x)
run_rollback v = refused v

abbrev run_commit : View ℕ → Option Fault × View ℕ
run_commit (active b s d) = set_to (idle d)
run_commit v = refused v

abbrev run_abort : View ℕ → Option Fault × View ℕ
run_abort (active b s d) = set_to (idle b)
run_abort (failed b s) = set_to (idle b)
run_abort v = refused v

abbrev run_command : Bytes → View ℕ → Option Fault × View ℕ
run_command (a ∷ b ∷ q) v =
    if a == 67
    then run_commit v
    else if a == 65
    then run_abort v
    else if a == 82
    then (if b == 69 then run_release v else run_rollback v)
    else if b == 84
    then run_start v
    else run_savepoint (name_in (drop 14 q)) v
run_command q v = refused v

abbrev reply : Option Fault × View ℕ → Option Fault × Held
reply (f, v) = (f, (false, v))

abbrev execute_held : Bytes → Held → Option Fault × Held
execute_held q (true, v) = (some server_error, (true, v))
execute_held q (false, v) = reply (run_command q v)

abbrev held_session : Session Held
held_session = record { execute = execute_held; state_of = λ w. letter_of w.1; closed = λ w. w.0 }

chop_three : (v : Bytes) → take (length (v ++ codes ")\";") - 3) (v ++ codes ")\";") ≡ v
chop_three v =
    let count : length (v ++ codes ")\";") - 3 ≡ length v =
      omega (arith, length-append v (codes ")\";")) in
    rw (count, take-append v (codes ")\";")) refl

does :
    (q : Bytes) (w : Held) (v u : View ℕ)
    → w.0 ≡ false
    → w.1 ≡ v
    → run_command q v ≡ set_to u
    → Does held_session (λ (x : Held). x.1) (execute_held q w) u
does q (true, x) v u live h e = absurd cc
does q (false, x) v u live h e = rw (h, e) (inr (refl, refl, refl))

stays_closed : (q : Bytes) (w : Held) → w.0 ≡ true → (execute_held q w).1.0 ≡ true
stays_closed q (true, v) h = refl
stays_closed q (false, v) h = absurd cc

named :
    (name : Bytes) (b d : ℕ) (s : List (Bytes × ℕ))
    → run_command (savepoint_xact_string name) (active b s d) ≡ set_to (active b ((name, d) ∷ s) d)
unfolding savepoint_xact_string
named name b d s = rw (chop_three (double 34 name), halve-double 34 name) refl

released :
    (name : Bytes) (b d : ℕ) (p : Bytes × ℕ) (s : List (Bytes × ℕ))
    → run_command (release_string name) (active b (p ∷ s) d) ≡ set_to (active b s d)
unfolding release_string
released name b d p s = refl

rolled_back :
    (name : Bytes) (b x d : ℕ) (s : List (Bytes × ℕ))
    → (run_command (rollback_to_string name) (active b ((name, x) ∷ s) d) ≡ set_to (active b s x))
      × (run_command (rollback_to_string name) (failed b ((name, x) ∷ s)) ≡ set_to (active b s x))
unfolding rollback_to_string
rolled_back name b x d s = (refl, refl)

abbrev held_server : Server held_session
held_server = record {
  Data = ℕ;
  view = λ w. w.1;
  state_of-view = λ w live. refl;
  execute-closed = stays_closed;
  start_transaction = λ w d live h. does (codes "START TRANSACTION;") w (idle d) _ live h refl;
  set_savepoint = λ w name b d s live h.
      does (savepoint_xact_string name) w (active b s d) _ live h (named name b d s);
  release_savepoint = λ w name b x d s live h.
      does (release_string name) w (active b ((name, x) ∷ s) d) _ live h
        (released name b d (name, x) s);
  rollback_active = λ w name b x d s live h.
      does (rollback_to_string name) w (active b ((name, x) ∷ s) d) _ live h
        (rolled_back name b x d s).0;
  rollback_failed = λ w name b x s live h.
      does (rollback_to_string name) w (failed b ((name, x) ∷ s)) _ live h
        (rolled_back name b x x s).1;
  commit_block = λ w b d s live h. inl (does (codes "COMMIT") w (active b s d) _ live h refl);
  abort_active = λ w b d s live h. does (codes "ABORT;") w (active b s d) _ live h refl;
  abort_failed = λ w b s live h. does (codes "ABORT;") w (failed b s) _ live h refl;
}

-- A body that adds one to the data, and ends as it is told
abbrev add_one : View ℕ → View ℕ
add_one (idle d) = idle (d + 1)
add_one (active b s d) = active b s (d + 1)
add_one (failed b s) = failed b s

abbrev adds : Leaving → Held → Leaving × Held
adds left (closed, v) = (left, (closed, add_one v))

add_one-below :
    (l : Level ℕ) (name : Bytes) (x d : ℕ) → add_one (below l name x d) ≡ below l name x (d + 1)
add_one-below outer name x d = refl
add_one-below (inner b s) name x d = refl

adds-IsNested :
    (left : Leaving)
    → left ≢ interrupts
    → (l : Level ℕ) (name : Bytes) (x : ℕ) → IsNested held_session held_server l name x (adds left)
adds-IsNested left kept l name x = (
  (λ w. kept),
  (λ w lost. lost),
  (λ w d live h. inr (live, inl (d + 1, ap add_one h ∙ add_one-below l name x d))),
)

-- A block within a block, of which the inner one raises
abbrev raising : Held → Leaving × Held
raising w = with_xact held_session (new_transaction (codes "0x2") none none) (adds excepts) w

with_xact-IsNested_example : IsNested held_session held_server outer (codes "0x1") 5 raising
with_xact-IsNested_example =
    with_xact-IsNested held_session held_server outer (codes "0x1") 5 (codes "0x2") (adds excepts)
      (λ y. adds-IsNested excepts (λ e. cc) (inner 5 []) (codes "0x2") y)

with_xact-IsAtomic_example :
    IsAtomic held_session held_server outer
      (codes "0x1")
      5
      raising
      (with_xact held_session (new_transaction (codes "0x1") none none) raising (false, idle 5))
with_xact-IsAtomic_example =
    with_xact-IsAtomic held_session held_server outer (codes "0x1") 5 raising
      with_xact-IsNested_example (false, idle 5) refl refl

-- The inner block raises, and the outer one goes on and is committed.
abbrev going_on : Held → Leaving × Held
going_on w = adds returns (raising w).1

committed_once :
    with_xact held_session (new_transaction (codes "0x1") none none) going_on (false, idle 5)
    ≡ (returns, (false, idle 6))
unfolding with_xact start new_transaction start_new start_block start_xact_string add_option
    start_savepoint is_configured execute_then run_body after_exit exit_xact after_commit commit
    commit_string rollback_then raise_after rollback rollback_open savepoint_xact_string
    release_string rollback_to_string bytes_eq
committed_once = refl
