-- ===== src/Client/Private.antt =====
-- What goes over the socket in the clear, where SSL is required (protocol/client3.py).
use pg_cluster.Base.{
  Bool-cases, Bytes, List, Option, [], ap, append-nil, append_assoc, drop, false, inl, inr, none,
  refl, some, sym, take, take-append-drop, true, ℕ, ◌++◌, ◌∙◌, ◌∷◌, ◌≡◌, ◌⊎◌,
}
use pg_cluster.Client.Complete.{
  Connection, Ending, Transactions, cannot_connect, connect_timeout, no_ssl_error, not_pq_error,
  reraised, returned, ssl_failed_error, stuck, unfinished,
}
use pg_cluster.Client.Connect.{
  Link, Opened, Secured, SslAnswer, after_answer, after_request, check_connected, connect,
  negotiate, negotiate_ssl, never, new_link, no_answer, not_postgres, open_fails, open_socket,
  opens, receive_status, secure_fails, secure_with, secures, send_request, ssl_refused, ssl_request,
  ssl_supported, try_ssl,
}
use pg_cluster.Client.Ended.{IsDead, fail-IsDead}
use pg_cluster.Client.Transport.{
  Delivery, Receipt, Transport, received, recv_fails, recv_interrupted, send_fails,
  send_interrupted, taken,
}

-- What was sent of the bytes: all of them, where the answer is that one.
abbrev IsSentOf : Bytes → SslAnswer × Transport → Type 0
IsSentOf bytes (a, u) = (rest : Bytes) × (u.sent ++ rest ≡ bytes) × (a ≡ ssl_supported → rest ≡ [])

send_request-IsSentOf :
    (ds : List Delivery) (r : Bytes) (t : Transport) → IsSentOf (t.sent ++ r) (send_request ds r t)
unfolding send_request
send_request-IsSentOf ds [] t = ([], refl, λ e. refl)
send_request-IsSentOf [] (b ∷ r) t = (b ∷ r, refl, λ e. cc)
send_request-IsSentOf (taken n ∷ ds) (b ∷ r) t =
    let (rest, is, all) =
      send_request-IsSentOf ds (drop n (b ∷ r)) (record t { sent = t.sent ++ take n (b ∷ r) }) in
    (
      rest,
      is
          ∙ append_assoc t.sent (take n (b ∷ r)) (drop n (b ∷ r))
          ∙ ap (λ (v : Bytes). t.sent ++ v) (take-append-drop n (b ∷ r)),
      all,
    )
send_request-IsSentOf (send_fails m ∷ ds) (b ∷ r) t = (b ∷ r, refl, λ e. cc)
send_request-IsSentOf (send_interrupted a ∷ ds) (b ∷ r) t = (b ∷ r, refl, λ e. cc)

receive_status-sent : (rs : List Receipt) (t : Transport) → (receive_status rs t).1.sent ≡ t.sent
unfolding receive_status
receive_status-sent [] t = refl
receive_status-sent (received [] ∷ rs) t = refl
receive_status-sent (received (b ∷ []) ∷ rs) t = refl
receive_status-sent (received (b ∷ c ∷ v) ∷ rs) t = refl
receive_status-sent (recv_fails m ∷ rs) t = refl
receive_status-sent (recv_interrupted a ∷ rs) t = refl

after_request-IsSentOf :
    (bytes : Bytes) (a : SslAnswer) (u : Transport)
    → IsSentOf bytes (a, u)
    → IsSentOf bytes (after_request (a, u))
unfolding after_request
after_request-IsSentOf bytes ssl_supported u (rest, is, all) = (
  [],
  ap (λ (v : Bytes). v ++ []) (receive_status-sent u.receipts u)
      ∙ ap (λ (v : Bytes). u.sent ++ v) (sym (all refl))
      ∙ is,
  λ e. refl,
)
after_request-IsSentOf bytes ssl_refused u h = h
after_request-IsSentOf bytes not_postgres u h = h
after_request-IsSentOf bytes no_answer u h = h
after_request-IsSentOf bytes never u h = h

negotiate_ssl-IsSentOf : (t : Transport) → t.sent ≡ [] → IsSentOf ssl_request (negotiate_ssl t)
unfolding negotiate_ssl
negotiate_ssl-IsSentOf t e =
    let (rest, is, all) = send_request-IsSentOf t.deliveries ssl_request t in
    after_request-IsSentOf ssl_request (send_request t.deliveries ssl_request t).0
      (send_request t.deliveries ssl_request t).1
      (rest, is ∙ ap (λ (v : Bytes). v ++ ssl_request) e, all)

module _ {X : Type 0} (ops : Transactions X) where
  abbrev IsLost : Option X → Type 0
  IsLost none = ⊥
  IsLost (some x) = IsDead ops x

  abbrev IsUnsecured : Ending → Connection X → Type 0
  IsUnsecured e d =
      ((rest : Bytes) × (d.transport.sent ++ rest ≡ ssl_request)) × (e ≡ returned → IsLost d.xact)

  -- The socket is secured, and before that nothing but the request was sent; or it is not, nothing
  -- but a part of the request was sent, and where the method returned its transaction is dead.
  abbrev pub IsPrivate : Ending × Connection X × Link → Type 0
  IsPrivate (e, d, l) =
      ((l.is_secured ≡ true) × (l.sent_in_clear ≡ ssl_request))
      ⊎ ((l.is_secured ≡ false) × IsUnsecured e d)

  check_connected-link :
      (k : Link) (o : Option X) (r : Ending × Connection X) → (check_connected ops k o r).2 ≡ k
  unfolding check_connected
  check_connected-link k (some x) (returned, c) = elim (Bool-cases (ops.has_error x)) [
    | inl has ↦ rw has refl
    | inr hasnt ↦ rw hasnt refl
  ]
  check_connected-link k (some x) (reraised, c) = refl
  check_connected-link k (some x) (stuck, c) = refl
  check_connected-link k (some x) (unfinished, c) = refl
  check_connected-link k none (returned, c) = refl
  check_connected-link k none (reraised, c) = refl
  check_connected-link k none (stuck, c) = refl
  check_connected-link k none (unfinished, c) = refl

  module _ (fuel : ℕ) (s : Secured) (x : X) where
    after_answer-IsPrivate :
        (a : SslAnswer) (u : Transport) (c : Connection X) (k : Link)
        → k.is_secured ≡ false
        → IsSentOf ssl_request (a, u)
        → IsPrivate (after_answer ops fuel true s x a (record c { transport = u }) k)
    unfolding after_answer secure_with negotiate
    after_answer-IsPrivate ssl_supported u c k e (rest, is, all) = secured s
      where
        whole : u.sent ≡ ssl_request
        whole = sym (append-nil u.sent) ∙ ap (λ (v : Bytes). u.sent ++ v) (sym (all refl)) ∙ is

        secured :
            (o : Secured) → IsPrivate (secure_with ops fuel o x (record c { transport = u }) k)
        secured secure_fails = inr (e, ((rest, is), λ z. fail-IsDead ops ssl_failed_error x))
        secured (secures ds rs) =
            rw (check_connected-link (record k { is_secured = true; sent_in_clear = u.sent }) _ _)
              (inl (refl, whole))
    after_answer-IsPrivate ssl_refused u c k e (rest, is, all) =
        inr (e, ((rest, is), λ z. fail-IsDead ops no_ssl_error x))
    after_answer-IsPrivate not_postgres u c k e (rest, is, all) =
        inr (e, ((rest, is), λ z. fail-IsDead ops not_pq_error x))
    after_answer-IsPrivate no_answer u c k e (rest, is, all) = inr (e, ((rest, is), λ z. cc))
    after_answer-IsPrivate never u c k e (rest, is, all) = inr (e, ((rest, is), λ z. cc))

    open_socket-IsPrivate :
        (o : Opened) (c : Connection X) (k : Link)
        → k.is_secured ≡ false
        → c.transport.sent ≡ []
        → IsPrivate (open_socket ops fuel (some true) o s x c k)
    unfolding open_socket try_ssl
    open_socket-IsPrivate (open_fails true m) c k e z = inr (
      e,
      (
        (ssl_request, ap (λ (v : Bytes). v ++ ssl_request) z),
        λ r. fail-IsDead ops connect_timeout x,
      ),
    )
    open_socket-IsPrivate (open_fails false m) c k e z = inr (
      e,
      (
        (ssl_request, ap (λ (v : Bytes). v ++ ssl_request) z),
        λ r. fail-IsDead ops (cannot_connect m) x,
      ),
    )
    open_socket-IsPrivate (opens ds rs) c k e z =
        let t = record c.transport { deliveries = ds; receipts = rs } in
        after_answer-IsPrivate (negotiate_ssl t).0 (negotiate_ssl t).1 (record c { transport = t })
          k e (negotiate_ssl-IsSentOf t z)

    -- Where `connect` is told to require SSL, on a connection that has sent nothing and had no
    -- socket yet, then whatever the
    -- server, the network and the factory of sockets do: a socket that is not secured is given no
    -- bytes but those of the request for SSL, in order; and where the connection returns without
    -- a secured socket, its transaction is complete and fatal.
    pub connect-IsPrivate :
        (o : Opened) (c : Connection X)
        → c.transport.sent ≡ []
        → IsPrivate (connect ops fuel (some true) o s x c new_link)
    unfolding connect
    connect-IsPrivate o c z =
        open_socket-IsPrivate o c (record new_link { is_attempted = true }) refl z
