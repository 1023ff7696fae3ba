-- ===== src/Driver/Atomic.antt =====
-- `with` blocks of `Transaction` (driver/pq3.py), in each other to any depth, with a server as the
-- documentation describes it.
use pg_cluster.Base.{
  Bytes, Option, ap, false, inl, inr, none, refl, some, sym, true, ◌∙◌, ◌≡◌, ◌≢◌, ◌⊎◌,
}
use pg_cluster.Driver.Calls.{Exits, Reaches, start-Reaches}
use pg_cluster.Driver.Exit.{
  IsLeft, after_exit-session, exit-closed, exit-excepts, exit-failed, exit-returns,
}
use pg_cluster.Driver.Level.{IsNested, Level, at_level, below, failed_below, in_state, kind_of}
use pg_cluster.Driver.Server.{Server}
use pg_cluster.Driver.Transaction.{
  Fault, Leaving, Session, Transaction, after_exit, excepts, exit_xact, failed_transaction,
  interrupts, new_transaction, opened, returns, run_body, start, with_xact,
}

module _ {W : Type 0} (db : Session W) (server : Server db) where
  open server use {Data, view}

  -- A `with` block as a whole: where the connection is not lost, it returned, and its data are those
  -- that the body left, or it raised, and its data are those from before; and it is as deep as before.
  abbrev pub IsAtomic : Level Data → Bytes → Data → (W → Leaving × W) → Leaving × W → Type 0
  IsAtomic l name x body (left, v) =
      (db.closed v ≡ true)
      ⊎ ((db.closed v ≡ false)
          × (((left ≡ returns)
                × ((u : W) × (d : Data) × (view u ≡ below l name x x)
                    × ((body u).0 ≡ returns)
                    × (view (body u).1 ≡ below l name x d)
                    × (view v ≡ at_level l d)))
              ⊎ ((left ≡ excepts) × (view v ≡ at_level l x))))

  IsAtomic-closed :
      (l : Level Data) (name : Bytes) (x : Data) (body : W → Leaving × W) (r : Leaving × W)
      → db.closed r.1 ≡ true
      → IsAtomic l name x body r
  IsAtomic-closed l name x body (left, v) h = inl h

  after_exit-excepts :
      (l : Level Data) (name : Bytes) (x : Data) (body : W → Leaving × W) (left : Leaving)
      (f : Option Fault) (c : Option Fault × Transaction × W)
      → (left ≡ excepts) ⊎ (f ≢ none)
      → Exits db server c f (at_level l x)
      → IsAtomic l name x body (after_exit db left c)
  unfolding after_exit
  after_exit-excepts l name x body left f (none, t, w) why (inl lost) = inl lost
  after_exit-excepts l name x body left f (none, t, w) (inl e) (inr (live, k, same)) =
      inr (live, inr (e, same))
  after_exit-excepts l name x body left f (none, t, w) (inr e) (inr (live, k, same)) =
      absurd (e (sym k))
  after_exit-excepts l name x body left f (some g, t, w) why (inl lost) = inl lost
  after_exit-excepts l name x body left f (some g, t, w) why (inr (live, k, same)) =
      inr (live, inr (refl, same))

  after_exit-returns :
      (l : Level Data) (name : Bytes) (x d : Data) (body : W → Leaving × W) (u : W)
      (c : Option Fault × Transaction × W)
      → view u ≡ below l name x x
      → (body u).0 ≡ returns
      → view (body u).1 ≡ below l name x d
      → IsLeft db server l x d c
      → IsAtomic l name x body (after_exit db returns c)
  unfolding after_exit
  after_exit-returns l name x d body u (f, t, w) e r h (inl lost) =
      IsAtomic-closed l name x body _
        (ap (λ v. db.closed v) (after_exit-session db server returns (f, t, w)) ∙ lost)
  after_exit-returns l name x d body u (none, t, w) e r h (inr (live, inl (k, same))) =
      inr (live, inl (refl, (u, d, e, r, h, same)))
  after_exit-returns l name x d body u (none, t, w) e r h (inr (live, inr (g, k, same))) = absurd cc
  after_exit-returns l name x d body u (some f, t, w) e r h (inr (live, inl (k, same))) = absurd cc
  after_exit-returns l name x d body u (some f, t, w) e r h (inr (live, inr (g, k, same))) =
      inr (live, inr (refl, same))

  module _ (l : Level Data) (name : Bytes) (x : Data) (body : W → Leaving × W)
      (nested : IsNested db server l name x body) where
    abbrev finish : Leaving × W → Leaving × W
    finish (left, v) = after_exit db left (exit_xact db left (in_state (kind_of l) name opened) v)

    finish-closed :
        (t : Transaction) (left : Leaving) (v : W)
        → db.closed v ≡ true
        → db.closed (after_exit db left (exit_xact db left t v)).1 ≡ true
    finish-closed t left v h =
        ap (λ u. db.closed u) (after_exit-session db server left (exit_xact db left t v))
        ∙ exit-closed db server left t v h

    finish-IsAtomic :
        (u : W) (left : Leaving) (v : W)
        → view u ≡ below l name x x
        → body u ≡ (left, v)
        → left ≢ interrupts
        → (db.closed v ≡ true)
          ⊎ ((db.closed v ≡ false)
              × (((e : Data) × (view v ≡ below l name x e)) ⊎ (view v ≡ failed_below l name x)))
        → IsAtomic l name x body (finish (left, v))
    finish-IsAtomic u left v h e other (inl lost) =
        IsAtomic-closed l name x body _
          (finish-closed (in_state (kind_of l) name opened) left v lost)
    finish-IsAtomic u returns v h e other (inr (live, inl (d, same))) =
        after_exit-returns l name x d body u _ h (ap (λ r. r.0) e) (ap (λ r. view r.1) e ∙ same)
          (exit-returns db server l name v x d live same)
    finish-IsAtomic u returns v h e other (inr (live, inr same)) =
        after_exit-excepts l name x body returns (some failed_transaction) _ (inr (λ k. cc))
          (exit-failed db server l name v x live same)
    finish-IsAtomic u excepts v h e other (inr (live, inl (d, same))) =
        after_exit-excepts l name x body excepts none _ (inl refl)
          (exit-excepts db server l name v x d live (inl same))
    finish-IsAtomic u excepts v h e other (inr (live, inr same)) =
        after_exit-excepts l name x body excepts none _ (inl refl)
          (exit-excepts db server l name v x x live (inr same))
    finish-IsAtomic u interrupts v h e other (inr k) = absurd (other refl)

    run_body-IsAtomic :
        (c : Option Fault × Transaction × W)
        → Reaches db server c none (in_state (kind_of l) name opened) (below l name x x)
        → IsAtomic l name x body (run_body db body c)
    unfolding run_body
    run_body-IsAtomic (some f, t, u) (inl lost) = inl lost
    run_body-IsAtomic (some f, t, u) (inr (live, e, k, same)) = absurd cc
    run_body-IsAtomic (none, t, u) (inl lost) =
        IsAtomic-closed l name x body _ (finish-closed t (body u).0 (body u).1 (nested.1 u lost))
    run_body-IsAtomic (none, t, u) (inr (live, e, k, same)) =
        rw k
          (finish-IsAtomic u (body u).0 (body u).1 same refl (nested.0 u) (nested.2 u x live same))

    -- Where the connection is not lost, a `with` block of a new transaction without options returns with
    -- the data that its body left, or raises with the data from before it, outside of a transaction
    -- block as well as within one, and whatever nested blocks its body has; and it
    -- is no deeper afterwards. The server does what its documentation says, and the body is not
    -- interrupted and keeps to its block.
    pub with_xact-IsAtomic :
        (w : W)
        → db.closed w ≡ false
        → view w ≡ at_level l x
        → IsAtomic l name x body (with_xact db (new_transaction name none none) body w)
    unfolding with_xact
    with_xact-IsAtomic w live h =
        run_body-IsAtomic (start db (new_transaction name none none) w)
          (start-Reaches db server l name w x live h)

    pub run_body-closed :
        (c : Option Fault × Transaction × W)
        → db.closed c.2 ≡ true
        → db.closed (run_body db body c).1 ≡ true
    unfolding run_body
    run_body-closed (some f, t, u) h = h
    run_body-closed (none, t, u) h = finish-closed t (body u).0 (body u).1 (nested.1 u h)

    pub run_body-interrupts :
        (c : Option Fault × Transaction × W) → (run_body db body c).0 ≢ interrupts
    unfolding run_body after_exit
    run_body-interrupts (some f, t, u) = λ e. cc
    run_body-interrupts (none, t, u) =
        still (body u).0 (exit_xact db (body u).0 t (body u).1) (nested.0 u)
      where
        still :
            (left : Leaving) (c : Option Fault × Transaction × W)
            → left ≢ interrupts
            → (after_exit db left c).0 ≢ interrupts
        still left (none, s, v) h = h
        still left (some f, s, v) h = λ e. cc
