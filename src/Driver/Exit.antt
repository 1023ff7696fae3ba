-- ===== src/Driver/Exit.antt =====
-- `__exit__` of `Transaction` (driver/pq3.py), for the ways in which a block can be left.
use pg_cluster.Base.{
  Bytes, Option, [], ap, bytes_eq, codes, false, if_cases, inl, inr, none, refl, some, true, ◌∙◌,
  ◌≡◌, ◌⊎◌,
}
use pg_cluster.Driver.Calls.{Exits, rollback-Reaches, rollback_then-Exits}
use pg_cluster.Driver.Level.{Level, at_level, below, failed_below, in_state, inner, kind_of, outer}
use pg_cluster.Driver.Server.{Does, Fails, Server, letter_of}
use pg_cluster.Driver.Transaction.{
  Fault, Leaving, Session, Transaction, XactState, aborted, active_transaction, after_commit,
  after_exit, block, commit, commit_string, committed, excepts, execute_then, exit_xact,
  failed_transaction, initialized, interrupts, opened, prepared, returns, rollback_then, savepoint,
}

module _ {W : Type 0} (db : Session W) (server : Server db) where
  open server use {Data, view, state_of-view, execute-closed, release_savepoint, commit_block}

  -- What a block that is left without an exception has done: it keeps the data of the body, or it
  -- raises and has the data from before.
  abbrev pub IsLeft : Level Data → Data → Data → Option Fault × Transaction × W → Type 0
  IsLeft l x d (f, t, w) =
      (db.closed w ≡ true)
      ⊎ ((db.closed w ≡ false)
          × (((f ≡ none) × (view w ≡ at_level l d))
              ⊎ ((e : Fault) × (f ≡ some e) × (view w ≡ at_level l x))))

  after_commit-Does :
      (l : Level Data) (t : Transaction) (x d : Data) (r : Option Fault × W)
      → Does db view r (at_level l d) ⊎ Fails db view r (at_level l x)
      → IsLeft l x d (after_commit db (execute_then db committed t r))
  unfolding after_commit execute_then rollback_then
  after_commit-Does l t x d (none, w) (inl (inl lost)) = inl lost
  after_commit-Does l t x d (none, w) (inl (inr (live, e, k))) = inr (live, inl (refl, k))
  after_commit-Does l t x d (none, w) (inr (e, live, k, other, same)) = absurd cc
  after_commit-Does l t x d (some active_transaction, w) (inl (inl lost)) = rw lost (inl lost)
  after_commit-Does l t x d (some f, w) (inl (inl lost)) = inl lost
  after_commit-Does l t x d (some f, w) (inl (inr (live, e, k))) = absurd cc
  after_commit-Does l t x d (some active_transaction, w) (inr (e, live, k, other, same)) =
      absurd (other cc)
  after_commit-Does l t x d (some f, w) (inr (e, live, k, other, same)) =
      inr (live, inr (f, refl, same))

  pub exit-returns :
      (l : Level Data) (name : Bytes) (w : W) (x d : Data)
      → db.closed w ≡ false
      → view w ≡ below l name x d
      → IsLeft l x d (exit_xact db returns (in_state (kind_of l) name opened) w)
  unfolding exit_xact commit commit_string bytes_eq
  exit-returns outer name w x d live h =
      rw (state_of-view w live ∙ ap letter_of h)
        (after_commit-Does outer (in_state block name opened) x d _ (commit_block w x d [] live h))
  exit-returns (inner b s) name w x d live h = rw (state_of-view w live ∙ ap letter_of h) (
      after_commit-Does (inner b s) (in_state savepoint name opened) x d _
        (inl (release_savepoint w name b x d s live h)))

  pub exit-failed :
      (l : Level Data) (name : Bytes) (w : W) (x : Data)
      → db.closed w ≡ false
      → view w ≡ failed_below l name x
      → Exits db server
          (exit_xact db returns (in_state (kind_of l) name opened) w)
          (some failed_transaction)
          (at_level l x)
  unfolding exit_xact bytes_eq
  exit-failed l name w x live h =
      let letter : db.state_of w ≡ codes "E" =
        state_of-view w live ∙ ap letter_of h ∙ failed_letter l in
      rw letter (
        rollback_then-Exits db server (some failed_transaction) (in_state (kind_of l) name opened)
          (in_state (kind_of l) name aborted) w (at_level l x) live
          (rollback-Reaches db server l name w x x live (inr h)))
    where
      failed_letter : (k : Level Data) → letter_of (failed_below k name x) ≡ codes "E"
      failed_letter outer = refl
      failed_letter (inner b s) = refl

  pub exit-excepts :
      (l : Level Data) (name : Bytes) (w : W) (x d : Data)
      → db.closed w ≡ false
      → (view w ≡ below l name x d) ⊎ (view w ≡ failed_below l name x)
      → Exits db server
          (exit_xact db excepts (in_state (kind_of l) name opened) w)
          none
          (at_level l x)
  unfolding exit_xact
  exit-excepts l name w x d live h =
      rollback_then-Exits db server none (in_state (kind_of l) name opened)
        (in_state (kind_of l) name aborted) w (at_level l x) live
        (rollback-Reaches db server l name w x d live h)

  -- A lost connection stays lost.
  pub execute_then-closed :
      (next : XactState) (t : Transaction) (r : Option Fault × W)
      → db.closed r.1 ≡ true
      → db.closed (execute_then db next t r).2 ≡ true
  unfolding execute_then
  execute_then-closed next t (none, w) h = h
  execute_then-closed next t (some f, w) h = h

  after_commit-closed :
      (c : Option Fault × Transaction × W)
      → db.closed c.2 ≡ true
      → db.closed (after_commit db c).2 ≡ true
  unfolding after_commit rollback_then
  after_commit-closed (some active_transaction, t, w) h = rw h h
  after_commit-closed (some f, t, w) h = h
  after_commit-closed (none, t, w) h = h

  commit-closed :
      (state : XactState) (t : Transaction) (w : W)
      → db.closed w ≡ true
      → db.closed (commit db (record t { state = state }) w).2 ≡ true
  unfolding commit
  commit-closed initialized t w h = h
  commit-closed opened t w h =
      execute_then-closed committed (record t { state = opened }) _ (execute-closed _ w h)
  commit-closed prepared t w h = h
  commit-closed committed t w h = h
  commit-closed aborted t w h = h

  pub exit-closed :
      (left : Leaving) (t : Transaction) (w : W)
      → db.closed w ≡ true
      → db.closed (exit_xact db left t w).2 ≡ true
  unfolding exit_xact rollback_then
  exit-closed returns t w h =
      if_cases (λ (c : Option Fault × Transaction × W). db.closed c.2 ≡ true)
        (bytes_eq (db.state_of w) (codes "E")) _ _ (λ e. rw h h)
        (λ e. after_commit-closed (commit db t w) (commit-closed t.state t w h))
  exit-closed excepts t w h = rw h h
  exit-closed interrupts t w h = h

  pub after_exit-session :
      (left : Leaving) (c : Option Fault × Transaction × W) → (after_exit db left c).1 ≡ c.2
  unfolding after_exit
  after_exit-session left (none, t, w) = refl
  after_exit-session left (some f, t, w) = refl
