-- ===== src/Driver/Level.antt =====
-- Where the `with` blocks of `Transaction` (driver/pq3.py) stand in each other.
use pg_cluster.Base.{Bytes, List, [], false, none, refl, some, true, ◌∷◌, ◌≡◌, ◌≢◌, ◌⊎◌}
use pg_cluster.Driver.Server.{Server, View, active, failed, idle}
use pg_cluster.Driver.Transaction.{
  Leaving, Session, Transaction, XactState, XactType, block, interrupts, savepoint,
}

-- Where a `with` block stands: outside of every transaction block, or inside of one.
pub data Level (D : Type 0) : Type 0 where
  outer : Level D
  inner : D → List (Bytes × D) → Level D

module _ {D : Type 0} where
  abbrev pub at_level : Level D → D → View D
  at_level outer d = idle d
  at_level (inner b s) d = active b s d

  -- In the body of a block that began with the data `x`
  abbrev pub below : Level D → Bytes → D → D → View D
  below outer name x d = active x [] d
  below (inner b s) name x d = active b ((name, x) ∷ s) d

  abbrev pub failed_below : Level D → Bytes → D → View D
  failed_below outer name x = failed x []
  failed_below (inner b s) name x = failed b ((name, x) ∷ s)

  abbrev pub kind_of : Level D → XactType
  kind_of outer = block
  kind_of (inner b s) = savepoint

  -- The level of that body
  abbrev pub deeper : Level D → Bytes → D → Level D
  deeper outer name x = inner x []
  deeper (inner b s) name x = inner b ((name, x) ∷ s)

  pub at_level-deeper :
      (l : Level D) (name : Bytes) (x d : D) → at_level (deeper l name x) d ≡ below l name x d
  at_level-deeper outer name x d = refl
  at_level-deeper (inner b s) name x d = refl

abbrev pub in_state : XactType → Bytes → XactState → Transaction
in_state kind name state = record {
  name = name;
  isolation = none;
  mode = none;
  state = state;
  type = some kind;
}

module _ {W : Type 0} (db : Session W) (server : Server db) where
  open server use {Data, view}

  -- A body keeps to its block: it is not interrupted, a lost connection stays lost, and it
  -- leaves the block as deep as it was, maybe failed.
  abbrev pub IsNested : Level Data → Bytes → Data → (W → Leaving × W) → Type 0
  IsNested l name x body =
      ((w : W) → (body w).0 ≢ interrupts)
      × ((w : W) → db.closed w ≡ true → db.closed (body w).1 ≡ true)
      × ((w : W) (d : Data)
          → db.closed w ≡ false
          → view w ≡ below l name x d
          → (db.closed (body w).1 ≡ true)
            ⊎ ((db.closed (body w).1 ≡ false)
                × (((e : Data) × (view (body w).1 ≡ below l name x e))
                    ⊎ (view (body w).1 ≡ failed_below l name x))))
