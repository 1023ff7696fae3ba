-- ===== src/Lock/Rollback.antt =====
-- The effect of `acquire` and `release` on the locks that the session holds.
use pg_cluster.Base.{
  Bool, Bool-cases, List, [], arith, false, if◌then◌else◌, inl, inr, refl, true, ℕ, ◌&&◌, ◌++◌, ◌+◌,
  ◌-◌, ◌==◌, ◌∙◌, ◌∷◌, ◌≡◌,
}
use pg_cluster.Base.Int.{negsuc, pos, ℤ}
use pg_cluster.Lock.{
  ALock, Identifier, Statements, acquire, id_pairs, ids, locked_of, reversed, settle, several,
  single,
}

unfoldable pub int_eq : ℤ → ℤ → Bool
int_eq (pos n) (pos m) = n == m
int_eq (negsuc n) (negsuc m) = n == m
int_eq _ _ = false

unfoldable pub ints_eq : List ℤ → List ℤ → Bool
ints_eq [] [] = true
ints_eq (x ∷ xs) (y ∷ ys) = int_eq x y && ints_eq xs ys
ints_eq _ _ = false

unfoldable pub same : Identifier → Identifier → Bool
same (single n) (single m) = int_eq n m
same (several ns) (several ms) = ints_eq ns ms
same _ _ = false

-- How often an identifier is among some.
unfoldable pub amount : List Identifier → Identifier → ℕ
amount [] x = 0
amount (y ∷ ys) x = let rest = amount ys x in if same y x then rest + 1 else rest

-- What PostgreSQL documents of its advisory locks. A lock that is had several times is held until
-- it is released as often; `held d x` says how often. A try has the locks that it reports.
pub record Locks {D : Type 0} (db : Statements D) : Type 0 where
  pub held : D → Identifier → ℕ
  pub tries :
      (xs : List Identifier) (d : D) (x : Identifier)
      → held (db.try_locks (id_pairs xs) (ids xs) d).1 x
        ≡ held d x + amount (locked_of (db.try_locks (id_pairs xs) (ids xs) d).0 xs) x
  pub releases :
      (xs : List Identifier) (d : D) (x : Identifier)
      → held (db.release_locks (id_pairs xs) (ids xs) d) x ≡ held d x - amount xs x
  pub acquires :
      (xs : List Identifier) (d : D) (x : Identifier)
      → held (db.acquire_locks (id_pairs xs) (ids xs) d) x ≡ held d x + amount xs x

amount-append :
    (xs ys : List Identifier) (x : Identifier) → amount (xs ++ ys) x ≡ amount xs x + amount ys x
unfolding amount
amount-append [] ys x = omega arith
amount-append (y ∷ xs) ys x = elim (Bool-cases (same y x)) [
  | inl hit ↦ rw hit (omega (arith, amount-append xs ys x))
  | inr other ↦ rw other (amount-append xs ys x)
]

amount-reversed : (xs : List Identifier) (x : Identifier) → amount (reversed xs) x ≡ amount xs x
unfolding amount reversed
amount-reversed [] x = refl
amount-reversed (y ∷ xs) x =
    let parts = amount-append (reversed xs) (y ∷ []) x in
    let back = amount-reversed xs x in
    elim (Bool-cases (same y x)) [
      | inl hit ↦ rw hit (parts ∙ rw hit (omega (arith, back)))
      | inr other ↦ rw other (parts ∙ rw other (omega (arith, back)))
    ]

id_pairs-append : (xs ys : List Identifier) → id_pairs (xs ++ ys) ≡ id_pairs xs ++ id_pairs ys
unfolding id_pairs
id_pairs-append [] ys = refl
id_pairs-append (single n ∷ xs) ys = rw (id_pairs-append xs ys) refl
id_pairs-append (several n ∷ xs) ys = rw (id_pairs-append xs ys) refl

ids-append : (xs ys : List Identifier) → ids (xs ++ ys) ≡ ids xs ++ ids ys
unfolding ids
ids-append [] ys = refl
ids-append (single n ∷ xs) ys = rw (ids-append xs ys) refl
ids-append (several n ∷ xs) ys = rw (ids-append xs ys) refl

id_pairs-reversed : (xs : List Identifier) → reversed (id_pairs xs) ≡ id_pairs (reversed xs)
unfolding id_pairs reversed
id_pairs-reversed [] = refl
id_pairs-reversed (single n ∷ xs) =
    rw (id_pairs-reversed xs, id_pairs-append (reversed xs) (single n ∷ [])) refl
id_pairs-reversed (several n ∷ xs) =
    rw (id_pairs-reversed xs, id_pairs-append (reversed xs) (several n ∷ [])) refl

ids-reversed : (xs : List Identifier) → reversed (ids xs) ≡ ids (reversed xs)
unfolding ids reversed
ids-reversed [] = refl
ids-reversed (single n ∷ xs) = rw (ids-reversed xs, ids-append (reversed xs) (single n ∷ [])) refl
ids-reversed (several n ∷ xs) = rw (ids-reversed xs, ids-append (reversed xs) (several n ∷ [])) refl

module _ {D : Type 0} (db : Statements D) (laws : Locks db) where
  -- A result that reports a failure has changed nothing.
  IsUndone : ALock → D → Bool × ALock × D → Type 0
  IsUndone s d (b, t, e) = b ≡ false → (t ≡ s) × ((x : Identifier) → laws.held e x ≡ laws.held d x)

  IsUndone-if :
      (s : ALock) (d : D) (b : Bool) (p q : Bool × ALock × D)
      → IsUndone s d p
      → IsUndone s d q
      → IsUndone s d (if b then p else q)
  IsUndone-if s d true p q h k = h
  IsUndone-if s d false p q h k = k

  succeeded : (s : ALock) (d : D) (t : ALock) (e : D) → IsUndone s d (true, t, e)
  unfolding IsUndone
  succeeded s d t e = λ (q : ◌≡◌ {A = Bool} true false). absurd cc

  -- What was tried and then released is held as often as before.
  tried_released :
      (xs : List Identifier) (d : D) (x : Identifier)
      → let (r, e) = db.try_locks (id_pairs xs) (ids xs) d in
        let back = reversed (locked_of r xs) in
        laws.held (db.release_locks (id_pairs back) (ids back) e) x ≡ laws.held d x
  tried_released xs d x =
      let r = db.try_locks (id_pairs xs) (ids xs) d in
      let locked = locked_of r.0 xs in
      omega
        (arith, laws.tries xs d x, laws.releases (reversed locked) r.1 x, amount-reversed locked x)

  tried-IsUndone :
      (s : ALock) (d : D)
      → let (r, e) = db.try_locks (id_pairs s.identifiers) (ids s.identifiers) d in
        let back = reversed (locked_of r s.identifiers) in
        IsUndone s d (false, s, db.release_locks (id_pairs back) (ids back) e)
  unfolding IsUndone
  tried-IsUndone s d = λ q. (refl, λ x. tried_released s.identifiers d x)

  acquire-IsUndone : (blocking : Bool) (s : ALock) (d : D) → IsUndone s d (acquire db blocking s d)
  unfolding acquire settle
  acquire-IsUndone blocking s d =
      IsUndone-if s d (s.count == 0) _ _
        (IsUndone-if s d blocking _ _ (succeeded s d _ _)
          (IsUndone-if s d _ _ _ (succeeded s d _ _) (tried-IsUndone s d)))
        (succeeded s d _ _)

  -- An `acquire` that gives False, which it does only without blocking, changes neither the lock
  -- nor how often the session holds any identifier.
  pub acquire_failed :
      (blocking : Bool) (s : ALock) (d : D)
      → (acquire db blocking s d).0 ≡ false
      → ((acquire db blocking s d).1 ≡ s)
        × ((x : Identifier) → laws.held (acquire db blocking s d).2 x ≡ laws.held d x)
  unfolding IsUndone
  acquire_failed blocking s d h = acquire-IsUndone blocking s d h
