-- ===== src/Client/Connect.antt =====
-- `connect` and `negotiate_ssl` of protocol/client3.py. The key and the id of the backend that are
-- noted at the end are left out.
use pg_cluster.Base.{
  Bool, Bytes, List, Option, [], drop, false, if◌then◌else◌, none, some, take, true, ℕ, ◌++◌, ◌==◌,
  ◌∷◌,
}
use pg_cluster.Client.Complete.{
  Connection, Ending, Failure, Transactions, cannot_connect, complete, connect_timeout,
  no_ssl_error, not_pq_error, partial_connection_error, reraised, returned, ssl_failed_error, stuck,
}
use pg_cluster.Client.Transport.{
  Delivery, Receipt, Transport, received, recv_fails, recv_interrupted, send_fails,
  send_interrupted, taken,
}

-- What the factory of sockets does: it gives a socket, or raises, with what `timed_out` and
-- `fatal_exception_message` say of the exception.
pub data Opened : Type 0 where
  opens : List Delivery → List Receipt → Opened
  open_fails : Bool → Option Bytes → Opened

-- What `secure` does: the socket that it gives, or any exception.
pub data Secured : Type 0 where
  secures : List Delivery → List Receipt → Secured
  secure_fails : Secured

-- Whether there is a `socket` attribute, whether it is a secured one, and what was sent before that.
pub record Link : Type 0 where
  pub is_attempted : Bool
  pub is_secured : Bool
  pub sent_in_clear : Bytes

abbrev pub new_link : Link
new_link = record { is_attempted = false; is_secured = false; sent_in_clear = [] }

-- What `negotiate_ssl` returns: True, False, None; or it does not return.
pub data SslAnswer : Type 0 where
  ssl_supported ssl_refused not_postgres no_answer never : SslAnswer

-- `while r: r = r[self.socket.send(r):]`
unfoldable pub send_request : List Delivery → Bytes → Transport → SslAnswer × Transport
send_request ds [] t = (ssl_supported, record t { deliveries = ds })
send_request [] (b ∷ r) t = (never, record t { deliveries = [] })
send_request (taken n ∷ ds) (b ∷ r) t =
    send_request ds (drop n (b ∷ r)) (record t { sent = t.sent ++ take n (b ∷ r) })
send_request (send_fails m ∷ ds) (b ∷ r) t = (no_answer, record t { deliveries = ds })
send_request (send_interrupted a ∷ ds) (b ∷ r) t = (no_answer, record t { deliveries = ds })

unfoldable pub answer_of : ℕ → SslAnswer
answer_of b = if b == b'S' then ssl_supported else if b == b'N' then ssl_refused else not_postgres

-- `self.socket.recv(1)`, and the tests of the status
unfoldable pub receive_status : List Receipt → Transport → SslAnswer × Transport
receive_status [] t = (never, t)
receive_status (received [] ∷ rs) t = (not_postgres, record t { receipts = rs })
receive_status (received (b ∷ []) ∷ rs) t = (answer_of b, record t { receipts = rs })
receive_status (received (b ∷ c ∷ v) ∷ rs) t =
    (answer_of b, record t { receipts = received (c ∷ v) ∷ rs })
receive_status (recv_fails m ∷ rs) t = (no_answer, record t { receipts = rs })
receive_status (recv_interrupted a ∷ rs) t = (no_answer, record t { receipts = rs })

unfoldable pub after_request : SslAnswer × Transport → SslAnswer × Transport
after_request (ssl_supported, t) = receive_status t.receipts t
after_request (a, t) = (a, t)

-- `NegotiateSSLMessage.bytes()`
unfoldable pub ssl_request : Bytes
ssl_request = 0 ∷ 0 ∷ 0 ∷ 8 ∷ 4 ∷ 210 ∷ 22 ∷ 47 ∷ []

-- `negotiate_ssl`
unfoldable pub negotiate_ssl : Transport → SslAnswer × Transport
negotiate_ssl t = after_request (send_request t.deliveries ssl_request t)

module _ {X : Type 0} (ops : Transactions X) where
  abbrev Linked : Type 0
  Linked = Ending × Connection X × Link

  abbrev fail_with : Failure → X → Connection X → Link → Linked
  fail_with f x c k = (returned, record c { xact = some (ops.fail f x) }, k)

  -- What follows `complete`
  unfoldable pub check_connected : Link → Option X → Ending × Connection X → Linked
  check_connected k (some x) (returned, c) =
      if ops.has_error x then (returned, c, k) else fail_with partial_connection_error x c k
  check_connected k o (e, c) = (e, c, k)

  unfoldable pub negotiate : ℕ → Connection X → Link → Linked
  negotiate fuel c k = let r = complete ops fuel c in check_connected k r.1.xact r

  -- `if supported`
  unfoldable pub secure_with : ℕ → Secured → X → Connection X → Link → Linked
  secure_with fuel secure_fails x c k = fail_with ssl_failed_error x c k
  secure_with fuel (secures ds rs) x c k =
      let t = record c.transport { sent = []; deliveries = ds; receipts = rs } in
      negotiate fuel (record c { transport = t })
        (record k { is_secured = true; sent_in_clear = c.transport.sent })

  -- `if ssl is not None`, with what `negotiate_ssl` gave
  unfoldable pub after_answer : ℕ → Bool → Secured → X → SslAnswer → Connection X → Link → Linked
  after_answer fuel ssl s x ssl_supported c k = secure_with fuel s x c k
  after_answer fuel true s x ssl_refused c k = fail_with no_ssl_error x c k
  after_answer fuel false s x ssl_refused c k = negotiate fuel c k
  after_answer fuel ssl s x not_postgres c k = fail_with not_pq_error x c k
  after_answer fuel ssl s x no_answer c k = (reraised, c, k)
  after_answer fuel ssl s x never c k = (stuck, c, k)

  unfoldable pub try_ssl : ℕ → Option Bool → Secured → X → Connection X → Link → Linked
  try_ssl fuel none s x c k = negotiate fuel c k
  try_ssl fuel (some ssl) s x c k =
      let (a, t) = negotiate_ssl c.transport in
      after_answer fuel ssl s x a (record c { transport = t }) k

  -- The socket, or the errors of its factory
  unfoldable pub open_socket : ℕ → Option Bool → Opened → Secured → X → Connection X → Link → Linked
  open_socket fuel ssl (open_fails true m) s x c k = fail_with connect_timeout x c k
  open_socket fuel ssl (open_fails false m) s x c k = fail_with (cannot_connect m) x c k
  open_socket fuel ssl (opens ds rs) s x c k =
      let t = record c.transport { deliveries = ds; receipts = rs } in
      try_ssl fuel ssl s x (record c { transport = t }) k

  -- `connect(ssl)`; `x` is the Negotiation that `__init__` made.
  unfoldable pub connect : ℕ → Option Bool → Opened → Secured → X → Connection X → Link → Linked
  connect fuel ssl o s x c k =
      if k.is_attempted
      then (returned, c, k)
      else open_socket fuel ssl o s x c (record k { is_attempted = true })
