-- ===== src/Driver/Nested.antt =====
-- A `with` block of `Transaction` (driver/pq3.py) as a part of the body of another one.
use pg_cluster.Base.{
  Bytes, Option, bytes_eq, codes, false, if_cases, inl, inr, none, sym, true, ◌∙◌, ◌≡◌, ◌⊎◌,
}
use pg_cluster.Driver.Atomic.{IsAtomic, run_body-closed, run_body-interrupts, with_xact-IsAtomic}
use pg_cluster.Driver.Exit.{execute_then-closed}
use pg_cluster.Driver.Level.{IsNested, Level, at_level-deeper, below, deeper, failed_below}
use pg_cluster.Driver.Server.{Server}
use pg_cluster.Driver.Transaction.{
  Fault, Leaving, Session, Transaction, add_option, is_configured, new_transaction, opened, start,
  start_block, start_new, start_savepoint, start_xact_string, with_xact,
}

module _ {W : Type 0} (db : Session W) (server : Server db) where
  open server use {Data, view, execute-closed}

  start-closed :
      (name : Bytes) (w : W)
      → db.closed w ≡ true
      → db.closed (start db (new_transaction name none none) w).2 ≡ true
  unfolding start new_transaction start_new start_block start_xact_string add_option start_savepoint
      is_configured
  start-closed name w h =
      if_cases (λ (c : Option Fault × Transaction × W). db.closed c.2 ≡ true)
        (bytes_eq (db.state_of w) (codes "I")) _ _
        (λ e. execute_then-closed db server opened _ _ (execute-closed _ w h))
        (λ e. execute_then-closed db server opened _ _ (execute-closed _ w h))

  -- A `with` block whose body keeps to it keeps to the block that it stands in, so that the body of
  -- a `with` block may have such blocks in it, to any depth. The server does what its documentation
  -- says.
  pub with_xact-IsNested :
      (l : Level Data) (name : Bytes) (x : Data) (own : Bytes) (body : W → Leaving × W)
      → ((y : Data) → IsNested db server (deeper l name x) own y body)
      → IsNested db server l name x (λ w. with_xact db (new_transaction own none none) body w)
  unfolding with_xact
  with_xact-IsNested l name x own body nested = (
    (λ w.
        run_body-interrupts db server (deeper l name x) own x body (nested x)
          (start db (new_transaction own none none) w)),
    (λ w lost.
        run_body-closed db server (deeper l name x) own x body (nested x)
          (start db (new_transaction own none none) w) (start-closed own w lost)),
    (λ w d live h. kept d (with_xact db (new_transaction own none none) body w) (
        with_xact-IsAtomic db server (deeper l name x) own d body (nested d) w live
          (h ∙ sym (at_level-deeper l name x d)))),
  )
    where
      kept :
          (d : Data) (r : Leaving × W)
          → IsAtomic db server (deeper l name x) own d body r
          → (db.closed r.1 ≡ true)
            ⊎ ((db.closed r.1 ≡ false)
                × (((e : Data) × (view r.1 ≡ below l name x e))
                    ⊎ (view r.1 ≡ failed_below l name x)))
      kept d (left, v) (inl lost) = inl lost
      kept d (left, v) (inr (live, inl (e, (u, z, a, b, c, same)))) =
          inr (live, inl (z, same ∙ at_level-deeper l name x z))
      kept d (left, v) (inr (live, inr (e, same))) =
          inr (live, inl (d, same ∙ at_level-deeper l name x d))
