-- ===== src/Driver/Calls.antt =====
-- `start` and `rollback` of `Transaction` (driver/pq3.py), where the server does what its
-- documentation says.
use pg_cluster.Base.{
  Bytes, Option, [], ap, bytes_eq, false, inl, inr, none, refl, some, true, ◌∙◌, ◌∷◌, ◌≡◌, ◌⊎◌,
}
use pg_cluster.Driver.Level.{Level, at_level, below, failed_below, in_state, inner, kind_of, outer}
use pg_cluster.Driver.Server.{Does, Server, View, active, idle, letter_of}
use pg_cluster.Driver.Transaction.{
  Fault, Session, Transaction, XactState, aborted, add_option, block, execute_then, initialized,
  is_configured, new_transaction, opened, raise_after, rollback, rollback_open, rollback_then,
  savepoint, start, start_block, start_new, start_savepoint, start_xact_string,
}

module _ {W : Type 0} (db : Session W) (server : Server db) where
  open server use {
    Data, view, state_of-view, start_transaction, set_savepoint, rollback_active, rollback_failed,
    abort_active, abort_failed,
  }

  -- What a call of a method has done, if the connection is not lost
  abbrev pub Reaches :
      Option Fault × Transaction × W → Option Fault → Transaction → View Data → Type 0
  Reaches (f, t, w) g s v =
      (db.closed w ≡ true) ⊎ ((db.closed w ≡ false) × (f ≡ g) × (t ≡ s) × (view w ≡ v))

  execute_then-Reaches :
      (next : XactState) (t : Transaction) (r : Option Fault × W) (v : View Data)
      → Does db view r v
      → Reaches (execute_then db next t r) none (record t { state = next }) v
  unfolding execute_then
  execute_then-Reaches next t (none, w) v (inl lost) = inl lost
  execute_then-Reaches next t (none, w) v (inr (live, e, k)) = inr (live, refl, refl, k)
  execute_then-Reaches next t (some f, w) v (inl lost) = inl lost
  execute_then-Reaches next t (some f, w) v (inr (live, e, k)) = absurd cc

  pub start-Reaches :
      (l : Level Data) (name : Bytes) (w : W) (x : Data)
      → db.closed w ≡ false
      → view w ≡ at_level l x
      → Reaches
          (start db (new_transaction name none none) w)
          none
          (in_state (kind_of l) name opened)
          (below l name x x)
  unfolding start new_transaction start_new start_block start_xact_string add_option start_savepoint
      is_configured bytes_eq
  start-Reaches outer name w x live h =
      let idle_now = state_of-view w live ∙ ap letter_of h in
      rw idle_now (
        execute_then-Reaches opened (in_state block name initialized) _ (active x [] x)
          (start_transaction w x live h))
  start-Reaches (inner b s) name w x live h =
      let busy = state_of-view w live ∙ ap letter_of h in
      rw busy (
        execute_then-Reaches opened (in_state savepoint name initialized) _
          (active b ((name, x) ∷ s) x) (set_savepoint w name b x s live h))

  pub rollback-Reaches :
      (l : Level Data) (name : Bytes) (w : W) (x d : Data)
      → db.closed w ≡ false
      → (view w ≡ below l name x d) ⊎ (view w ≡ failed_below l name x)
      → Reaches
          (rollback db (in_state (kind_of l) name opened) w)
          none
          (in_state (kind_of l) name aborted)
          (at_level l x)
  unfolding rollback rollback_open
  rollback-Reaches outer name w x d live (inl h) =
      execute_then-Reaches aborted (in_state block name opened) _ (idle x)
        (abort_active w x d [] live h)
  rollback-Reaches outer name w x d live (inr h) =
      execute_then-Reaches aborted (in_state block name opened) _ (idle x)
        (abort_failed w x [] live h)
  rollback-Reaches (inner b s) name w x d live (inl h) =
      execute_then-Reaches aborted (in_state savepoint name opened) _ (active b s x)
        (rollback_active w name b x d s live h)
  rollback-Reaches (inner b s) name w x d live (inr h) =
      execute_then-Reaches aborted (in_state savepoint name opened) _ (active b s x)
        (rollback_failed w name b x s live h)

  -- What an exit has done: the exception that it raises, and the session
  abbrev pub Exits : Option Fault × Transaction × W → Option Fault → View Data → Type 0
  Exits (f, t, w) g v = (db.closed w ≡ true) ⊎ ((db.closed w ≡ false) × (f ≡ g) × (view w ≡ v))

  pub rollback_then-Exits :
      (f : Option Fault) (t s : Transaction) (w : W) (v : View Data)
      → db.closed w ≡ false
      → Reaches (rollback db t w) none s v
      → Exits (rollback_then db f t w) f v
  unfolding rollback_then raise_after
  rollback_then-Exits f t s w v live h = rw live (raised (rollback db t w) h)
    where
      raised :
          (c : Option Fault × Transaction × W) → Reaches c none s v → Exits (raise_after db f c) f v
      raised (none, r, u) (inl lost) = inl lost
      raised (none, r, u) (inr (on, e, k, same)) = inr (on, refl, same)
      raised (some g, r, u) (inl lost) = inl lost
      raised (some g, r, u) (inr (on, e, k, same)) = absurd cc
