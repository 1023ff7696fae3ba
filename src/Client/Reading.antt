-- ===== src/Client/Reading.antt =====
-- Reading from the socket (protocol/client3.py): no byte that arrives is lost, and the messages
-- are those at the front of what arrived.
use pg_cluster.Base.{
  Bool, Bytes, Exception, List, Option, Outcome, [], ap, append_assoc, false, inl, inr, none, ok,
  raise, refl, some, suc, sym, true, ℕ, ◌++◌, ◌>>=◌, ◌∙◌, ◌∷◌, ◌≡◌, ◌≢◌, ◌⊎◌,
}
use pg_cluster.Buffer.Observe.{has_message_lem, pending-write}
use pg_cluster.Buffer.Refine.{Refines, read-Refines}
use pg_cluster.Buffer.Spec.{
  IsStream, Rest, has_of, pending, read_of, take_message, take_messages, take_more,
}
use pg_cluster.Buffer.Stream.{Frame, MessageStream, has_message, read, write}
use pg_cluster.Client.Transport.{
  Receipt, Reply, Transport, at_eof, at_round, at_test, done, fails, fill_read, interrupted, raises,
  read_into, receive_from, receive_loop, receive_one, received, recv_fails, recv_interrupted,
  set_read, standard_read_messages, take_read, waits,
}

-- The bytes that the calls of `recv` will still give.
unfoldable pub arrived : List Receipt → Bytes
arrived [] = []
arrived (received v ∷ rs) = v ++ arrived rs
arrived (recv_fails m ∷ rs) = arrived rs
arrived (recv_interrupted b ∷ rs) = arrived rs

unfoldable pub held : Option Bytes → Bytes
held none = []
held (some v) = v

-- What the connection has not yet read as messages, or will still be given.
unfoldable pub in_hand : Transport → Bytes
in_hand t = pending t.message_buffer ++ (held t.read_data ++ arrived t.receipts)

abbrev IsReady : Reply → Transport → Type 0
IsReady done u = has_message u.message_buffer ≡ ok true
IsReady _ u = Unit

-- The bytes in hand are these; where the reply is True, there is a message.
abbrev IsReceived : Bytes → Reply × Transport → Type 0
IsReceived all (r, u) = (in_hand u ≡ all) × IsStream u.message_buffer × IsReady r u

at_test-IsReceived :
    (all : Bytes) (o : Outcome Bool) (body : Reply × Transport) (t : Transport)
    → has_message t.message_buffer ≡ o
    → in_hand t ≡ all
    → IsStream t.message_buffer
    → IsReceived all body
    → IsReceived all (at_test o body t)
unfolding at_test
at_test-IsReceived all (raise e) body t h a s b = (a, s, tt)
at_test-IsReceived all (ok true) body t h a s b = (a, s, h)
at_test-IsReceived all (ok false) body t h a s b = b

in_hand-round :
    (rs : List Receipt) (s : MessageStream) (t : Transport)
    → in_hand (at_round rs s t) ≡ pending s ++ arrived rs
unfolding in_hand held
in_hand-round rs s t = refl

receive_loop-IsReceived :
    (rs : List Receipt) (s : MessageStream) (t : Transport)
    → IsStream s
    → IsReceived (pending s ++ arrived rs) (receive_loop rs s t)
unfolding receive_loop receive_one in_hand held arrived
receive_loop-IsReceived [] s t h =
    at_test-IsReceived (pending s ++ arrived []) (has_message s) (waits, at_round [] s t)
      (at_round [] s t) refl (in_hand-round [] s t) h (refl, h, tt)
receive_loop-IsReceived (received [] ∷ rs) s t h =
    at_test-IsReceived (pending s ++ arrived (received [] ∷ rs)) (has_message s) _
      (at_round (received [] ∷ rs) s t) refl (in_hand-round (received [] ∷ rs) s t) h (refl, h, tt)
receive_loop-IsReceived (received (b ∷ v) ∷ rs) s t h =
    let (more, still) = pending-write (b ∷ v) s h in
    let rest = receive_loop-IsReceived rs (write (b ∷ v) s) t still in
    at_test-IsReceived (pending s ++ arrived (received (b ∷ v) ∷ rs)) (has_message s) _
      (at_round (received (b ∷ v) ∷ rs) s t) refl (in_hand-round (received (b ∷ v) ∷ rs) s t) h
      (rw (more, append_assoc (pending s) (b ∷ v) (arrived rs)) at rest)
receive_loop-IsReceived (recv_fails m ∷ rs) s t h =
    at_test-IsReceived (pending s ++ arrived (recv_fails m ∷ rs)) (has_message s) _
      (at_round (recv_fails m ∷ rs) s t) refl (in_hand-round (recv_fails m ∷ rs) s t) h
      (refl, h, tt)
receive_loop-IsReceived (recv_interrupted b ∷ rs) s t h =
    at_test-IsReceived (pending s ++ arrived (recv_interrupted b ∷ rs)) (has_message s) _
      (at_round (recv_interrupted b ∷ rs) s t) refl (in_hand-round (recv_interrupted b ∷ rs) s t) h
      (refl, h, tt)

abbrev in_hand_of : Option Bytes → Transport → Bytes
in_hand_of d t = pending t.message_buffer ++ (held d ++ arrived t.receipts)

receive_from-IsReceived :
    (d : Option Bytes) (t : Transport)
    → IsStream t.message_buffer
    → in_hand t ≡ in_hand_of d t
    → IsReceived (in_hand_of d t) (receive_from d t)
unfolding receive_from held
receive_from-IsReceived none t h e = receive_loop-IsReceived t.receipts t.message_buffer t h
receive_from-IsReceived (some v) t h e =
    let (more, still) = pending-write v t.message_buffer h in
    let rest = receive_loop-IsReceived t.receipts (write v t.message_buffer) t still in
    at_test-IsReceived (in_hand_of (some v) t) (has_message t.message_buffer)
      (receive_loop t.receipts (write v t.message_buffer) t) t refl e h
      (rw (more, append_assoc (pending t.message_buffer) v (arrived t.receipts)) at rest)

-- Whatever `recv` gives, `read_into` keeps each byte that arrives, in order; where it returns True,
-- the buffer has a message.
pub read_into_lem :
    (t : Transport) → IsStream t.message_buffer → IsReceived (in_hand t) (read_into t)
unfolding read_into in_hand
read_into_lem t h = receive_from-IsReceived t.read_data t h refl

-- What `read` took is what is at the front of the bytes in hand, and the rest is kept.
abbrev pub IsTaken : ℕ → Bytes → Transport → Type 0
IsTaken num all u =
    (v : Bytes) × (take_messages num v ≡ ok (u.read_list, pending u.message_buffer))
    × (v ++ (held u.read_data ++ arrived u.receipts) ≡ all)

take_messages-some :
    (n : ℕ) (v rest : Bytes) (ms : List Frame)
    → has_of (take_message v) ≡ ok true
    → take_messages (suc n) v ≡ ok (ms, rest)
    → ms ≢ []
unfolding take_messages has_of take_more
take_messages-some n v rest ms h e z = some_of (take_message v) h e
  where
    more_of :
        (f : Frame) (o : Outcome (List Frame × Bytes))
        → ◌≡◌ {A = Outcome (List Frame × Bytes)}
            (do (ks, end) ← o; ok (f ∷ ks, end))
            (ok (ms, rest))
        → ⊥
    more_of f (raise x) k = cc
    more_of f (ok (ks, end)) k = cc

    some_of :
        (o : Outcome (Option Rest))
        → has_of o ≡ ok true
        → take_more (λ w. take_messages n w) v o ≡ ok (ms, rest)
        → ⊥
    some_of (raise x) a b = cc
    some_of (ok none) a b = cc
    some_of (ok (some (f, w))) a b = more_of f (take_messages n w) b

-- What the assignment of `self.read` leaves: a raised exception, or the messages.
abbrev IsAssigned : ℕ → Transport → Reply → Reply × Transport → Type 0
IsAssigned num t r x =
    ((e : Exception) × (x.0 ≡ raises e) × (in_hand x.1 ≡ in_hand t))
    ⊎ ((x.0 ≡ r)
        × IsTaken num (in_hand t) x.1
        × (has_message t.message_buffer ≡ ok true → x.1.read_list ≢ []))

module _ (n : ℕ) (t : Transport) (r : Reply) (h : IsStream t.message_buffer) where
  set_read-IsAssigned :
      (o : Outcome (List Frame)) (s : MessageStream) (spec : Outcome (List Frame × Bytes))
      → take_messages (suc n) (pending t.message_buffer) ≡ spec
      → Refines (o, s) (read_of (pending t.message_buffer) spec)
      → IsAssigned (suc n) t r (set_read r t (o, s))
  unfolding set_read read_of in_hand
  set_read-IsAssigned o s (raise e) k f =
      rw f.0 (inl (e, refl, ap (λ (v : Bytes). v ++ (held t.read_data ++ arrived t.receipts)) f.1))
  set_read-IsAssigned o s (ok (ms, rest)) k f = rw f.0 (
      inr (
        refl,
        (pending t.message_buffer, rw f.1 k, refl),
        λ has.
            take_messages-some n (pending t.message_buffer) rest ms
              (sym (has_message_lem t.message_buffer h) ∙ has) k,
      ))

  read-IsAssigned : IsAssigned (suc n) t r (set_read r t (read (suc n) t.message_buffer))
  read-IsAssigned =
      set_read-IsAssigned (read (suc n) t.message_buffer).0 (read (suc n) t.message_buffer).1
        (take_messages (suc n) (pending t.message_buffer)) refl
        (read-Refines (suc n) t.message_buffer h)

-- How the messages are read, by the reply.
abbrev IsReadAs : ℕ → Bytes → Reply → Transport → Type 0
IsReadAs num all done u = IsTaken num all u × (u.read_list ≢ [])
IsReadAs num all (fails m) u = IsTaken num all u
IsReadAs num all at_eof u = IsTaken num all u
IsReadAs num all _ u = in_hand u ≡ all

abbrev pub IsRead : ℕ → Bytes → Reply × Transport → Type 0
IsRead num all x = IsReadAs num all x.0 x.1

take_read-IsRead :
    (n : ℕ) (all : Bytes) (r : Reply) (t : Transport)
    → IsReceived all (r, t)
    → IsRead (suc n) all (take_read (suc n) (r, t))
unfolding take_read
take_read-IsRead n all (raises e) t h = h.0
take_read-IsRead n all (interrupted b) t h = h.0
take_read-IsRead n all waits t h = h.0
take_read-IsRead n all done t h = elim (read-IsAssigned n t done h.1) [
  | inl (e, is, same) ↦ rw is (same ∙ h.0)
  | inr (is, front, more) ↦ rw is (rw h.0 at front, more h.2)
]
take_read-IsRead n all at_eof t h = elim (read-IsAssigned n t at_eof h.1) [
  | inl (e, is, same) ↦ rw is (same ∙ h.0)
  | inr (is, front, more) ↦ rw is (rw h.0 at front)
]
take_read-IsRead n all (fails m) t h = elim (read-IsAssigned n t (fails m) h.1) [
  | inl (e, is, same) ↦ rw is (same ∙ h.0)
  | inr (is, front, more) ↦ rw is (rw h.0 at front)
]

fill_read-IsRead :
    (n : ℕ) (ms : List Frame) (t : Transport)
    → IsStream t.message_buffer
    → ms ≡ []
    → IsRead (suc n) (in_hand t) (fill_read (suc n) ms t)
unfolding fill_read
fill_read-IsRead n [] t h e =
    take_read-IsRead n (in_hand t) (read_into t).0 (read_into t).1 (read_into_lem t h)
fill_read-IsRead n (m ∷ ms) t h e = cc

-- Where no message is left over in `read`, `standard_read_messages` calls `recv` until the buffer has a whole
-- message. The messages it gives are those at the front of what had arrived by then, at least one
-- where it returns True, and what is behind them is kept with what is still to come. Where it is
-- interrupted, waits or raises, nothing of what arrives is lost.
pub standard_read_messages-IsRead :
    (n : ℕ) (t : Transport)
    → IsStream t.message_buffer
    → t.read_list ≡ []
    → IsRead (suc n) (in_hand t) (standard_read_messages (suc n) t)
unfolding standard_read_messages
standard_read_messages-IsRead n t h e = fill_read-IsRead n t.read_list t h e
