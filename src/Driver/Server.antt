-- ===== src/Driver/Server.antt =====
-- What `Transaction` (driver/pq3.py) relies on: what the documentation of the server says of the
-- commands for transactions and savepoints.
use pg_cluster.Base.{Bytes, List, Option, [], codes, false, none, some, true, ◌∷◌, ◌≡◌, ◌≢◌, ◌⊎◌}
use pg_cluster.Driver.Transaction.{
  Fault, Session, active_transaction, release_string, rollback_to_string, savepoint_xact_string,
}

-- What a session holds: the data; in a transaction block the data before it, the savepoints, from the
-- last one, with the data at each of them, and the data now. A block that failed has no data.
pub data View (D : Type 0) : Type 0 where
  idle : D → View D
  active : D → List (Bytes × D) → D → View D
  failed : D → List (Bytes × D) → View D

-- `pq.state`
abbrev pub letter_of : {D : Type 0} → View D → Bytes
letter_of (idle d) = codes "I"
letter_of (active b s d) = codes "T"
letter_of (failed b s) = codes "E"

-- What a command may do: the connection is lost, or it does what it is for.
abbrev pub Does :
    {W : Type 0} {D : Type 0} → Session W → (W → View D) → Option Fault × W → View D → Type 0
Does db view (f, w) v = (db.closed w ≡ true) ⊎ ((db.closed w ≡ false) × (f ≡ none) × (view w ≡ v))

-- COMMIT may fail, with another exception than ActiveTransactionError; the block is over.
abbrev pub Fails :
    {W : Type 0} {D : Type 0} → Session W → (W → View D) → Option Fault × W → View D → Type 0
Fails db view (f, w) v =
    (e : Fault) × (db.closed w ≡ false) × (f ≡ some e) × (e ≢ active_transaction) × (view w ≡ v)

pub record Server {W : Type 0} (db : Session W) : Type 1 where
  pub Data : Type 0
  pub view : W → View Data
  pub state_of-view : (w : W) → db.closed w ≡ false → db.state_of w ≡ letter_of (view w)
  pub execute-closed :
      (q : Bytes) (w : W) → db.closed w ≡ true → db.closed (db.execute q w).1 ≡ true
  pub start_transaction :
      (w : W) (d : Data)
      → db.closed w ≡ false
      → view w ≡ idle d
      → Does db view (db.execute (codes "START TRANSACTION;") w) (active d [] d)
  pub set_savepoint :
      (w : W) (name : Bytes) (b d : Data) (s : List (Bytes × Data))
      → db.closed w ≡ false
      → view w ≡ active b s d
      → Does db view (db.execute (savepoint_xact_string name) w) (active b ((name, d) ∷ s) d)
  pub release_savepoint :
      (w : W) (name : Bytes) (b x d : Data) (s : List (Bytes × Data))
      → db.closed w ≡ false
      → view w ≡ active b ((name, x) ∷ s) d
      → Does db view (db.execute (release_string name) w) (active b s d)
  pub rollback_active :
      (w : W) (name : Bytes) (b x d : Data) (s : List (Bytes × Data))
      → db.closed w ≡ false
      → view w ≡ active b ((name, x) ∷ s) d
      → Does db view (db.execute (rollback_to_string name) w) (active b s x)
  pub rollback_failed :
      (w : W) (name : Bytes) (b x : Data) (s : List (Bytes × Data))
      → db.closed w ≡ false
      → view w ≡ failed b ((name, x) ∷ s)
      → Does db view (db.execute (rollback_to_string name) w) (active b s x)
  pub commit_block :
      (w : W) (b d : Data) (s : List (Bytes × Data))
      → db.closed w ≡ false
      → view w ≡ active b s d
      → Does db view (db.execute (codes "COMMIT") w) (idle d)
        ⊎ Fails db view (db.execute (codes "COMMIT") w) (idle b)
  pub abort_active :
      (w : W) (b d : Data) (s : List (Bytes × Data))
      → db.closed w ≡ false
      → view w ≡ active b s d
      → Does db view (db.execute (codes "ABORT;") w) (idle b)
  pub abort_failed :
      (w : W) (b : Data) (s : List (Bytes × Data))
      → db.closed w ≡ false
      → view w ≡ failed b s
      → Does db view (db.execute (codes "ABORT;") w) (idle b)
