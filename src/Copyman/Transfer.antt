-- ===== src/Copyman/Transfer.antt =====
-- What a COPY that `run` of copyman.py has brought to its end has given to the receivers.
-- `[x for chunk in chunks for x in chunk]`
use pg_cluster.Base.{
  All, Bool, Bool-cases, Bytes, List, Outcome, [], ap, append-nil, append_assoc, arith,
  bind_returns, drop, false, if◌then◌else◌, inl, inr, map, none, ok, raise, refl, suc, sym, take,
  take-append-drop, true, ℕ, ◌++◌, ◌∙◌, ◌∷◌, ◌≡◌,
}
use pg_cluster.Copyman.Manager.{
  Ended, Produced, Receiver, Sending, accept, after_distribute, after_service, call_lines,
  call_receiver, copy_loop, distribute, exit_copy, has_receivers, lines, number_of, producer_raises,
  protocol_receiver, raises, run_copy, send_view, served, service_again, service_receivers, takes,
  takes_messages, transmit, wire_of,
}
use pg_cluster.Element.Fields.{join_all}
use pg_cluster.Element.Wire.{cat_messages, line, outgoing_bytes}

abbrev pub flat : List (List Bytes) → List Bytes
flat [] = []
flat (chunk ∷ chunks) = chunk ++ flat chunks

-- A receiver that has nothing to transmit
abbrev pub IsIdle : Receiver → Type 0
IsIdle (protocol_receiver i view sent) = view ≡ []
IsIdle (call_receiver i ls given) = ls ≡ none

-- A receiver that got all of the chunks, whose messages are `wire`
unfoldable pub received : List (List Bytes) → Bytes → Receiver → Receiver
received chunks wire (protocol_receiver i view sent) = protocol_receiver i [] (sent ++ wire)
received chunks wire (call_receiver i ls given) = call_receiver i none (given ++ chunks)

send_view-whole :
    (ss : List Sending) (i : ℕ) (v sent : Bytes)
    → (send_view ss i v sent).0 ≡ true
    → (send_view ss i v sent).1 ≡ protocol_receiver i [] (sent ++ v)
unfolding send_view
send_view-whole ss i [] sent h = rw (append-nil sent) refl
send_view-whole [] i (b ∷ v) sent h = absurd cc
send_view-whole (takes n ∷ ss) i (b ∷ v) sent h =
    send_view-whole ss i (drop n (b ∷ v)) (sent ++ take n (b ∷ v)) h
    ∙ rw (append_assoc sent (take n (b ∷ v)) (drop n (b ∷ v)), take-append-drop n (b ∷ v)) refl
send_view-whole (raises ∷ ss) i (b ∷ v) sent h = absurd cc

transmit-accept :
    (ss : List Sending) (chunk : List Bytes) (wire : Bytes) (r : Receiver)
    → (transmit ss (accept chunk wire r)).0 ≡ true
    → (transmit ss (accept chunk wire r)).1 ≡ received (chunk ∷ []) wire r
unfolding transmit accept received call_lines
transmit-accept ss chunk wire (protocol_receiver i view sent) h = send_view-whole ss i wire sent h
transmit-accept [] chunk wire (call_receiver i ls given) h = absurd cc
transmit-accept (takes n ∷ ss) chunk wire (call_receiver i ls given) h = refl
transmit-accept (raises ∷ ss) chunk wire (call_receiver i ls given) h = absurd cc

received-nothing : (r : Receiver) → IsIdle r → received [] [] r ≡ r
unfolding received
received-nothing (protocol_receiver i view sent) h = rw (h, append-nil sent) refl
received-nothing (call_receiver i ls given) h = rw (h, append-nil given) refl

received-again :
    (chunk : List Bytes) (chunks : List (List Bytes)) (v w : Bytes) (r : Receiver)
    → received chunks w (received (chunk ∷ []) v r) ≡ received (chunk ∷ chunks) (v ++ w) r
unfolding received
received-again chunk chunks v w (protocol_receiver i view sent) = rw (append_assoc sent v w) refl
received-again chunk chunks v w (call_receiver i ls given) =
    rw (append_assoc given (chunk ∷ []) chunks) refl

received-IsIdle :
    (chunks : List (List Bytes)) (w : Bytes) (r : Receiver) → IsIdle (received chunks w r)
unfolding received
received-IsIdle chunks w (protocol_receiver i view sent) = refl
received-IsIdle chunks w (call_receiver i ls given) = refl

map-IsIdle :
    (chunks : List (List Bytes)) (w : Bytes) (rs : List Receiver)
    → All IsIdle (map (received chunks w) rs)
map-IsIdle chunks w [] = tt
map-IsIdle chunks w (r ∷ rs) = (received-IsIdle chunks w r, map-IsIdle chunks w rs)

map_nothing : (rs : List Receiver) → All IsIdle rs → map (received [] []) rs ≡ rs
map_nothing [] h = refl
map_nothing (r ∷ rs) h = rw (received-nothing r h.0, map_nothing rs h.1) refl

map_again :
    (chunk : List Bytes) (chunks : List (List Bytes)) (v w : Bytes) (rs : List Receiver)
    → map (received chunks w) (map (received (chunk ∷ []) v) rs)
      ≡ map (received (chunk ∷ chunks) (v ++ w)) rs
map_again chunk chunks v w [] = refl
map_again chunk chunks v w (r ∷ rs) =
    rw (received-again chunk chunks v w r, map_again chunk chunks v w rs) refl

number_of-accept :
    (chunk : List Bytes) (wire : Bytes) (r : Receiver)
    → number_of (accept chunk wire r) ≡ number_of r
unfolding number_of accept
number_of-accept chunk wire (protocol_receiver i view sent) = refl
number_of-accept chunk wire (call_receiver i ls given) = refl

-- Without a fault every receiver has what it accepted.
pub service_receivers-accept :
    (env : ℕ → List Sending) (chunk : List Bytes) (wire : Bytes) (rs : List Receiver)
    → (service_receivers env (map (accept chunk wire) rs)).1 ≡ []
    → (service_receivers env (map (accept chunk wire) rs)).0 ≡ map (received (chunk ∷ []) wire) rs
unfolding service_receivers
service_receivers-accept env chunk wire [] h = refl
service_receivers-accept env chunk wire (r ∷ rs) h =
    let a = accept chunk wire r in
    elim (Bool-cases (transmit (env (number_of a)) a).0) [
      | inl done ↦
          let none_faulted : (service_receivers env (map (accept chunk wire) rs)).1 ≡ [] =
            rw done at h in
          rw
            (
              done,
              transmit-accept (env (number_of a)) chunk wire r done,
              service_receivers-accept env chunk wire rs none_faulted,
            )
            refl
      | inr fault ↦ let faulted = rw fault at h in absurd cc
    ]

-- The messages of two lists of lines
cat_messages-append :
    (xs ys : List Bytes) (v w : Bytes)
    → cat_messages (map line xs) ≡ ok v
    → cat_messages (map line ys) ≡ ok w
    → cat_messages (map line (xs ++ ys)) ≡ ok (v ++ w)
unfolding cat_messages join_all
cat_messages-append [] ys v w h k = let nothing : v ≡ [] = cc in k ∙ rw nothing refl
cat_messages-append (x ∷ xs) ys v w h k =
    let (front, first, more) = bind_returns (outgoing_bytes (line x)) _ h in
    let (rest, others, whole) = bind_returns (join_all outgoing_bytes (map line xs)) _ more in
    let joined : v ≡ front ++ rest = cc in
    rw (first, cat_messages-append xs ys rest w others k)
      (ap ok (sym (append_assoc front rest w)) ∙ ap (λ (u : Bytes). ok (u ++ w)) (sym joined))

wire_of-append :
    (pq : Bool) (xs ys : List Bytes) (v w : Bytes)
    → wire_of pq xs ≡ ok v
    → wire_of pq ys ≡ ok w
    → wire_of pq (xs ++ ys) ≡ ok (v ++ w)
unfolding wire_of
wire_of-append true xs ys v w h k = cat_messages-append xs ys v w h k
wire_of-append false xs ys v w h k = cc

-- What a copy that ended has done: the producer gave chunks alone, and every receiver has them.
abbrev pub IsCopied : Bool → List Produced → List Receiver → List Receiver → Type 0
IsCopied pq produced rs out =
    (chunks : List (List Bytes)) × (wire : Bytes) × (produced ≡ map lines chunks)
    × (wire_of pq (flat chunks) ≡ ok wire)
    × (out ≡ map (received chunks wire) rs)

lines-IsCopied :
    (pq : Bool) (chunk : List Bytes) (v : Bytes) (left : List Produced) (rs out : List Receiver)
    → wire_of pq chunk ≡ ok v
    → IsCopied pq left (map (received (chunk ∷ []) v) rs) out
    → IsCopied pq (lines chunk ∷ left) rs out
lines-IsCopied pq chunk v left rs out h (chunks, w, same, wires, e) = (
  chunk ∷ chunks,
  v ++ w,
  ap (λ (l : List Produced). lines chunk ∷ l) same,
  wire_of-append pq chunk (flat chunks) v w h wires,
  e ∙ map_again chunk chunks v w rs,
)

wire_of-nothing : (pq : Bool) → wire_of pq [] ≡ ok []
unfolding wire_of cat_messages join_all
wire_of-nothing true = refl
wire_of-nothing false = refl

-- If the loop ended with StopIteration while there were receivers, the producer was at its end
-- and the copy is done.
IsWell : Bool → List Produced → List Receiver → Ended → Type 0
IsWell pq produced rs e =
    e.is_raised ≡ false
    → has_receivers e.receivers ≡ true
    → (e.left ≡ []) × IsCopied pq produced rs e.receivers

after_service-IsWell :
    (again : List Receiver → Ended) (left : List Produced) (x : List Receiver × List Receiver)
    (pq : Bool) (produced : List Produced) (rs : List Receiver)
    → (x.1 ≡ [] → IsWell pq produced rs (again x.0))
    → IsWell pq produced rs (after_service again left x)
unfolding after_service IsWell
after_service-IsWell again left (kept, []) pq produced rs well = well refl
after_service-IsWell again left (kept, f ∷ fs) pq produced rs well = λ running some_left. absurd cc

module _ (pq : Bool) (env : ℕ → ℕ → List Sending) where
  after_distribute-IsWell :
      (k : ℕ) (left : List Produced) (chunk : List Bytes) (rs : List Receiver)
      (made : Outcome Bytes)
      → wire_of pq chunk ≡ made
      → ((qs : List Receiver)
          → All IsIdle qs
          → IsWell pq left qs (copy_loop pq env (suc k) left qs))
      → IsWell pq (lines chunk ∷ left) rs (
          after_distribute
            (λ qs. copy_loop pq env (suc k) left qs)
            (env k)
            left
            rs
            (distribute chunk made rs))
  unfolding IsWell after_distribute distribute
  after_distribute-IsWell k left chunk rs (raise e) h again = λ running some_left. absurd cc
  after_distribute-IsWell k left chunk rs (ok v) h again =
      after_service-IsWell (λ qs. copy_loop pq env (suc k) left qs) left
        (service_receivers (env k) (map (accept chunk v) rs)) pq (lines chunk ∷ left) rs
        (λ no_fault running some_left.
          let same = service_receivers-accept (env k) chunk v rs no_fault in
          let (over, copied) =
            again (map (received (chunk ∷ []) v) rs) (map-IsIdle (chunk ∷ []) v rs)
              (rw same at running) (rw same at some_left) in
          rw same (over, lines-IsCopied pq chunk v left rs _ h copied))

  copy_loop-IsWell :
      (k : ℕ) (produced : List Produced) (rs : List Receiver)
      → All IsIdle rs
      → IsWell pq produced rs (copy_loop pq env k produced rs)
  unfolding copy_loop has_receivers IsWell
  copy_loop-IsWell k produced [] i = λ running some_left. absurd cc
  copy_loop-IsWell k [] (r ∷ rs) i =
      λ running some_left. (refl, ([], [], refl, wire_of-nothing pq, sym (map_nothing (r ∷ rs) i)))
  copy_loop-IsWell k (producer_raises ∷ left) (r ∷ rs) i = λ running some_left. absurd cc
  copy_loop-IsWell k (lines chunk ∷ left) (r ∷ rs) i =
      after_distribute-IsWell k left chunk (r ∷ rs) (wire_of pq chunk) refl
        (λ qs idle. copy_loop-IsWell (suc k) left qs idle)

service_again-raised :
    (pq : Bool) (left : List Produced) (e : Ended)
    → e.is_raised ≡ true
    → (service_again pq left e).1.is_raised ≡ true
unfolding service_again served
service_again-raised pq [] e h = h
service_again-raised pq (producer_raises ∷ left) e h = h
service_again-raised pq (lines chunk ∷ left) e h =
    distributed (distribute chunk (wire_of pq chunk) e.receivers)
  where
    distributed : (made : Outcome (List Receiver)) → (served e made).1.is_raised ≡ true
    distributed (raise x) = h
    distributed (ok rs) = h

exit_copy-over :
    (exits : ℕ → Bool) (pq : Bool) (e : Ended)
    → has_receivers e.receivers ≡ true
    → e.left ≡ []
    → (exit_copy pq exits e).1 ≡ e.receivers
unfolding exit_copy service_again
exit_copy-over exits pq e h k =
    ap (λ (b : Bool). (if b then service_again pq e.left e else (true, e)).1.receivers) h
    ∙ ap (λ (left : List Produced). (service_again pq left e).1.receivers) k

-- Without CopyFail nothing was raised, and there are receivers.
exit_copy-success :
    (exits : ℕ → Bool) (pq : Bool) (e : Ended)
    → (exit_copy pq exits e).0 ≡ true
    → (e.is_raised ≡ false) × (has_receivers e.receivers ≡ true)
unfolding exit_copy
exit_copy-success exits pq e h = elim (Bool-cases (has_receivers e.receivers)) [
  | inr none_left ↦ absurd (let h = rw none_left at h in cc)
  | inl some_left ↦ elim (Bool-cases e.is_raised) [
    | inr running ↦ (running, some_left)
    | inl raised ↦
        let still = service_again-raised pq e.left e raised in
        absurd (let h = rw (some_left, still) at h in ground arith)
  ]
]

-- If `run` returns without CopyFail, then the iterator gave lists of lines alone, no receiver is
-- lost, and each of them, with nothing to transmit before, has everything, in order, and nothing
-- is left to transmit: a ProtocolReceiver the messages of all of the lines, a CallReceiver the lists.
pub run_copy-IsCopied :
    (exits : ℕ → Bool) (env : ℕ → ℕ → List Sending) (produced : List Produced) (rs : List Receiver)
    → All IsIdle rs
    → (run_copy exits env produced rs).0 ≡ true
    → IsCopied (takes_messages rs) produced rs (run_copy exits env produced rs).1
unfolding run_copy IsWell
run_copy-IsCopied exits env produced rs i h =
    let pq = takes_messages rs in
    let e = copy_loop pq env 0 produced rs in
    let (running, some_left) = exit_copy-success exits pq e h in
    let (over, copied) = copy_loop-IsWell pq env 0 produced rs i running some_left in
    rw (exit_copy-over exits pq e some_left over) copied
