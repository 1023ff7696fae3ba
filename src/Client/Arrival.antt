-- ===== src/Client/Arrival.antt =====
-- A message that arrives in whole is found by `read_into` (protocol/client3.py).
use pg_cluster.Base.{
  All, Bool, Bytes, Exception, List, Option, Outcome, [], ap, append-nil, append_assoc, false, none,
  ok, raise, refl, some, sym, true, ◌++◌, ◌∙◌, ◌∷◌, ◌≡◌, ◌≢◌,
}
use pg_cluster.Buffer.Cut.{take_message-raise}
use pg_cluster.Buffer.Observe.{has_message_lem, pending-write}
use pg_cluster.Buffer.Spec.{IsStream, Rest, has_of, pending, take_message}
use pg_cluster.Buffer.Stream.{MessageStream, has_message, write}
use pg_cluster.Client.Reading.{arrived}
use pg_cluster.Client.Transport.{
  Receipt, Reply, Transport, at_test, done, read_into, receive_from, receive_loop, receive_one,
  received, recv_fails, recv_interrupted,
}

-- Calls of `recv` that give bytes
abbrev pub GivesBytes : Receipt → Type 0
GivesBytes (received v) = v ≢ []
GivesBytes _ = ⊥

has_of-raise : (o : Outcome (Option Rest)) (e : Exception) → has_of o ≡ raise e → o ≡ raise e
unfolding has_of
has_of-raise (raise x) e h = cc
has_of-raise (ok none) e h = cc
has_of-raise (ok (some r)) e h = cc

-- What is at the front of a whole message raises nothing.
has_message-front :
    (s : MessageStream) (more : Bytes) (e : Exception)
    → IsStream s
    → has_of (take_message (pending s ++ more)) ≡ ok true
    → has_message s ≢ raise e
unfolding has_of
has_message-front s more e h whole broken =
    let here = has_of-raise (take_message (pending s)) e (sym (has_message_lem s h) ∙ broken) in
    let there = take_message-raise (pending s) more e here in
    no_message (ap (λ o. has_of o) (sym there) ∙ whole)
  where
    no_message : has_of (raise e) ≡ ok true → ⊥
    no_message k = let x : raise e ≡ ok true = k in cc

at_test-done :
    (o : Outcome Bool) (body : Reply × Transport) (t : Transport)
    → ((e : Exception) → o ≢ raise e)
    → (o ≡ ok false → body.0 ≡ done)
    → (at_test o body t).0 ≡ done
unfolding at_test
at_test-done (raise e) body t h k = absurd (h e refl)
at_test-done (ok true) body t h k = refl
at_test-done (ok false) body t h k = k refl

receive_loop-done :
    (rs : List Receipt) (s : MessageStream) (t : Transport)
    → IsStream s
    → All GivesBytes rs
    → has_of (take_message (pending s ++ arrived rs)) ≡ ok true
    → (receive_loop rs s t).0 ≡ done
unfolding receive_loop receive_one arrived
receive_loop-done [] s t h g whole =
    let all = rw (append-nil (pending s)) at whole in
    at_test-done (has_message s) _ _ (λ e. has_message-front s [] e h whole)
      (λ f. let x : ok true ≡ ok false = sym all ∙ sym (has_message_lem s h) ∙ f in cc)
receive_loop-done (received [] ∷ rs) s t h g whole = absurd (g.0 refl)
receive_loop-done (received (b ∷ v) ∷ rs) s t h g whole =
    let (more, still) = pending-write (b ∷ v) s h in
    let later : has_of (take_message (pending (write (b ∷ v) s) ++ arrived rs)) ≡ ok true =
      rw (more, append_assoc (pending s) (b ∷ v) (arrived rs)) whole in
    let rest = receive_loop-done rs (write (b ∷ v) s) t still g.1 later in
    at_test-done (has_message s) _ _ (λ e. has_message-front s ((b ∷ v) ++ arrived rs) e h whole)
      (λ f. rest)
receive_loop-done (recv_fails m ∷ rs) s t h g whole = absurd g.0
receive_loop-done (recv_interrupted x ∷ rs) s t h g whole = absurd g.0

-- Where no data waits in `read_data`, the calls of `recv` give bytes, and what is pending with all of them begins with a whole
-- message, `read_into` returns True: it neither waits for more nor raises.
pub read_into-done :
    (t : Transport)
    → IsStream t.message_buffer
    → t.read_data ≡ none
    → All GivesBytes t.receipts
    → has_of (take_message (pending t.message_buffer ++ arrived t.receipts)) ≡ ok true
    → (read_into t).0 ≡ done
unfolding read_into receive_from
read_into-done t h e g whole = starts t.read_data e
  where
    starts : (d : Option Bytes) → d ≡ none → (receive_from d t).0 ≡ done
    starts none k = receive_loop-done t.receipts t.message_buffer t h g whole
    starts (some v) k = cc
