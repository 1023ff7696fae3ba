-- ===== src/Client/Ended.antt =====
-- How the methods that drive a transaction end (protocol/client3.py).
use pg_cluster.Base.{
  Bool-cases, Bytes, List, Option, Option-cases, Outcome, false, inl, inr, none, ok, raise, refl,
  some, some_inj, suc, sym, true, zero, ℕ, ◌∙◌, ◌≡◌,
}
use pg_cluster.Client.Complete.{
  Connection, Direction, Ending, Failure, Transactions, after_put, after_read, after_sent,
  after_write, behind, complete, complete_any, complete_at, complete_loop, cut_read, detect_error,
  drive, eof_error, finish_complete, is_complete, is_receiving, is_sending, lost, note_state,
  protocol_error, push, push_any, reraised, returned, start, stuck, take_out_any, unfinished,
}
use pg_cluster.Client.Transport.{Reply, at_eof, done, fails, interrupted, raises, waits}

-- A transaction that is over and whose connection is lost
abbrev pub IsDead : {X : Type 0} → Transactions X → X → Type 0
IsDead ops x = (ops.direction x ≡ is_complete) × (ops.is_fatal x ≡ true)

-- The connection is free, or its transaction is dead.
abbrev pub IsIdle : {X : Type 0} → Transactions X → Option X → Type 0
IsIdle ops none = Unit
IsIdle ops (some x) = IsDead ops x

-- Where the method returned, its connection is idle.
abbrev pub EndsIdle : {X : Type 0} → Transactions X → Ending × Connection X → Type 0
EndsIdle ops (returned, c) = IsIdle ops c.xact
EndsIdle ops (_, c) = Unit

module _ {X : Type 0} (ops : Transactions X) where
  pub fail-IsDead : (f : Failure) (x : X) → IsDead ops (ops.fail f x)
  fail-IsDead f x = (ops.fail_completes f x, ops.fail_kills f x)

  finish_complete-EndsIdle :
      (x : X) (c : Connection X)
      → ops.direction x ≡ is_complete
      → EndsIdle ops (finish_complete ops x c)
  unfolding finish_complete
  finish_complete-EndsIdle x c e = elim (Bool-cases (ops.is_fatal x)) [
    | inl dead ↦ rw dead (e, dead)
    | inr alive ↦ rw alive tt
  ]

  module _ (again : X → Connection X → Ending × Connection X)
      (h : (x : X) (c : Connection X) → EndsIdle ops (again x c)) where
    after_put-EndsIdle :
        (r : Outcome ℕ × X) (c : Connection X) → EndsIdle ops (after_put ops again r c)
    unfolding after_put detect_error
    after_put-EndsIdle (raise e, x) c = fail-IsDead (protocol_error e) x
    after_put-EndsIdle (ok n, x) c = h x (cut_read ops n c)

    after_sent-EndsIdle :
        (r : Outcome (Unit {0}) × X) (c : Connection X) → EndsIdle ops (after_sent ops again r c)
    unfolding after_sent detect_error
    after_sent-EndsIdle (raise e, x) c = fail-IsDead (protocol_error e) x
    after_sent-EndsIdle (ok n, x) c = h x c

    after_read-EndsIdle :
        (x : X) (r : Reply) (c : Connection X) → EndsIdle ops (after_read ops again x r c)
    unfolding after_read detect_error
    after_read-EndsIdle x done c =
        after_put-EndsIdle (ops.put_op x c.reads c.transport.read_list x) c
    after_read-EndsIdle x (fails m) c = h (ops.fail (lost m) x) c
    after_read-EndsIdle x at_eof c = h (ops.fail eof_error x) c
    after_read-EndsIdle x (interrupted true) c = h x c
    after_read-EndsIdle x (interrupted false) c = tt
    after_read-EndsIdle x (raises e) c = fail-IsDead (protocol_error e) x
    after_read-EndsIdle x waits c = tt

    after_write-EndsIdle :
        (x : X) (r : Reply) (c : Connection X) → EndsIdle ops (after_write ops again x r c)
    unfolding after_write detect_error
    after_write-EndsIdle x done c = after_sent-EndsIdle (ops.sent_op x x) c
    after_write-EndsIdle x (fails m) c = h (ops.fail (lost m) x) c
    after_write-EndsIdle x at_eof c = h (ops.fail eof_error x) c
    after_write-EndsIdle x (interrupted true) c = h x c
    after_write-EndsIdle x (interrupted false) c = tt
    after_write-EndsIdle x (raises e) c = fail-IsDead (protocol_error e) x
    after_write-EndsIdle x waits c = tt

    drive-EndsIdle :
        (d : Direction) (x : X) (c : Connection X)
        → ops.direction x ≡ d
        → EndsIdle ops (drive ops again d x c)
    unfolding drive
    drive-EndsIdle is_complete x c e = finish_complete-EndsIdle x c e
    drive-EndsIdle is_receiving x c e = after_read-EndsIdle x _ _
    drive-EndsIdle is_sending x c e = after_write-EndsIdle x _ _

  complete_loop-EndsIdle :
      (fuel : ℕ) (x : X) (c : Connection X) → EndsIdle ops (complete_loop ops fuel x c)
  unfolding complete_loop
  complete_loop-EndsIdle zero x c = tt
  complete_loop-EndsIdle (suc fuel) x c =
      drive-EndsIdle (λ y d. complete_loop ops fuel y d) (λ y d. complete_loop-EndsIdle fuel y d)
        (ops.direction x) x c refl

  complete_at-EndsIdle :
      (fuel : ℕ) (o : Option X) (c : Connection X) → EndsIdle ops (complete_at ops fuel o c)
  unfolding complete_at
  complete_at-EndsIdle fuel none c = tt
  complete_at-EndsIdle fuel (some x) c = complete_loop-EndsIdle fuel x c

  -- Where `complete` returns, the connection has no transaction, or the one that it has is complete
  -- and fatal: whatever the socket and the transaction did.
  pub complete-EndsIdle : (fuel : ℕ) (c : Connection X) → EndsIdle ops (complete ops fuel c)
  unfolding complete
  complete-EndsIdle fuel c = complete_at-EndsIdle fuel c.xact c

  -- A dead connection, before and after a method that returned
  abbrev pub IsUntouched : Connection X → Ending × Connection X → Type 0
  IsUntouched c r =
      (r.0 ≡ returned) × (r.1.xact ≡ c.xact) × (r.1.transport ≡ c.transport) × (r.1.trash ≡ c.trash)

  note_state-IsUntouched : (x : X) (c : Connection X) → IsUntouched c (returned, note_state ops x c)
  unfolding note_state
  note_state-IsUntouched x c = elim (Option-cases (ops.last_ready_of x)) [
    | inl absent ↦ rw (absent, note_state) (refl, refl, refl, refl)
    | inr (s, e) ↦ rw (e, note_state) (refl, refl, refl, refl)
  ]

  behind-returned :
      (r : Ending × Connection X) (next : Connection X → Ending × Connection X)
      → r.0 ≡ returned
      → behind ops r next ≡ next r.1
  unfolding behind
  behind-returned (returned, c) next e = refl
  behind-returned (reraised, c) next e = cc
  behind-returned (stuck, c) next e = cc
  behind-returned (unfinished, c) next e = cc

  -- With a transaction that stays, the rest of `push` does nothing.
  push_rest : List Bytes × List Bytes → ℕ → X → Option X → Connection X → Ending × Connection X
  push_rest late fuel y o d =
      behind ops (take_out_any ops late fuel o d) (λ k. start ops y k.xact k)

  push_rest-occupied :
      (late : List Bytes × List Bytes) (fuel : ℕ) (x y : X) (o : Option X) (d : Connection X)
      → d.xact ≡ some x
      → o ≡ some x
      → push_rest late fuel y o d ≡ (returned, d)
  unfolding push_rest take_out_any behind start
  push_rest-occupied late fuel x y none d e k = cc
  push_rest-occupied late fuel x y (some z) d e k = occupied d.xact e
    where
      occupied : (o : Option X) → o ≡ some x → start ops y o d ≡ (returned, d)
      occupied none h = cc
      occupied (some w) h = refl

  module _ (n : ℕ) (x : X) (c : Connection X) (dead : IsDead ops x) (e : c.xact ≡ some x) where
    complete_loop-IsUntouched : IsUntouched c (complete_loop ops (suc n) x c)
    unfolding complete_loop drive finish_complete
    complete_loop-IsUntouched =
        let (a, b, t, s) = note_state-IsUntouched x c in rw (dead.0, dead.1) (refl, sym e, t, s)

    complete-IsUntouched : IsUntouched c (complete ops (suc n) c)
    unfolding complete complete_at
    complete-IsUntouched = at_xact c.xact e
      where
        at_xact : (o : Option X) → o ≡ some x → IsUntouched c (complete_at ops (suc n) o c)
        at_xact none k = cc
        at_xact (some y) k = rw (some_inj y x k) complete_loop-IsUntouched

    push_any-IsUntouched :
        (late : List Bytes × List Bytes) (y : X) → IsUntouched c (push_any ops late (suc n) y c)
    unfolding push_any push_rest complete_any
    push_any-IsUntouched late y =
        let (r, o, t, s) = complete-IsUntouched in
        let d = (complete ops (suc n) c).1 in
        rw
          (
            complete_any-some c.xact e,
            behind-returned (complete ops (suc n) c) _ r,
            push_rest-occupied late (suc n) x y d.xact d (o ∙ e) (o ∙ e),
          )
          (refl, o, t, s)
      where
        complete_any-some :
            (p : Option X) → p ≡ some x → complete_any ops (suc n) p c ≡ complete ops (suc n) c
        complete_any-some none k = cc
        complete_any-some (some w) k = refl

    -- Once the transaction of a connection is complete and fatal, `push` of any other one does
    -- nothing but to return: the dead one stays, nothing is sent or received, nothing is closed.
    pub push-IsUntouched :
        (late : List Bytes × List Bytes) (y : X) → IsUntouched c (push ops late (suc n) y c)
    unfolding push
    push-IsUntouched late y =
        elim (ops.direction y)
          as (λ d. IsUntouched c (elim d [
            | is_complete ↦ (returned, c)
            | is_sending ↦ push_any ops late (suc n) y c
            | is_receiving ↦ push_any ops late (suc n) y c
          ])) [
            | is_complete ↦ (refl, refl, refl, refl)
            | is_sending ↦ push_any-IsUntouched late y
            | is_receiving ↦ push_any-IsUntouched late y
          ]
