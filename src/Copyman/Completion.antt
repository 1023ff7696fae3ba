-- ===== src/Copyman/Completion.antt =====
-- When `run` of copyman.py comes to its end: with receivers whose calls make progress.
-- A call of `send` that takes a byte at least
use pg_cluster.Base.{
  All, Bool, Bytes, List, [], arith, drop, false, length, length-drop, map, ok, refl, suc, take,
  true, ℕ, ◌++◌, ◌<◌, ◌∷◌, ◌≡◌, ◌≤◌,
}
use pg_cluster.Copyman.Manager.{
  Ended, Produced, Receiver, Sending, accept, after_distribute, after_service, all_exit, call_lines,
  call_receiver, copy_loop, distribute, exit_copy, has_receivers, lines, number_of,
  protocol_receiver, raises, run_copy, send_view, service_again, service_receivers, takes,
  takes_messages, transmit, wire_of,
}
use pg_cluster.Copyman.Transfer.{received, service_receivers-accept}

abbrev pub Takes : Sending → Type 0
Takes (takes n) = 0 < n
Takes raises = ⊥

-- Calls that are enough for `n` bytes
abbrev pub IsWilling : ℕ → List Sending → Type 0
IsWilling n ss = All Takes ss × (n < length ss)

-- The messages of the lines can be made, and are `n` bytes at most.
abbrev pub IsSendable : Bool → ℕ → List Bytes → Type 0
IsSendable pq n chunk = (w : Bytes) × (wire_of pq chunk ≡ ok w) × (length w ≤ n)

send_view-done :
    (ss : List Sending) (i : ℕ) (v sent : Bytes)
    → All Takes ss
    → length v ≤ length ss
    → (send_view ss i v sent).0 ≡ true
unfolding send_view
send_view-done ss i [] sent t h = refl
send_view-done [] i (b ∷ v) sent t h = absurd (omega arith)
send_view-done (takes n ∷ ss) i (b ∷ v) sent t h =
    let less : length (drop n (b ∷ v)) ≤ length ss = omega (arith, length-drop n (b ∷ v), t.0) in
    send_view-done ss i (drop n (b ∷ v)) (sent ++ take n (b ∷ v)) t.1 less
send_view-done (raises ∷ ss) i (b ∷ v) sent t h = absurd t.0

transmit-done :
    (ss : List Sending) (chunk : List Bytes) (w : Bytes) (r : Receiver)
    → IsWilling (length w) ss
    → (transmit ss (accept chunk w r)).0 ≡ true
unfolding transmit accept call_lines
transmit-done ss chunk w (protocol_receiver i view sent) h =
    send_view-done ss i w sent h.0 (omega (arith, h.1))
transmit-done [] chunk w (call_receiver i ls given) h = absurd (omega (arith, h.1))
transmit-done (takes n ∷ ss) chunk w (call_receiver i ls given) h = refl
transmit-done (raises ∷ ss) chunk w (call_receiver i ls given) h = absurd h.0.0

service_receivers-done :
    (env : ℕ → List Sending) (chunk : List Bytes) (w : Bytes) (rs : List Receiver)
    → ((i : ℕ) → IsWilling (length w) (env i))
    → (service_receivers env (map (accept chunk w) rs)).1 ≡ []
unfolding service_receivers
service_receivers-done env chunk w [] h = refl
service_receivers-done env chunk w (r ∷ rs) h =
    let a = accept chunk w r in
    rw
      (
        transmit-done (env (number_of a)) chunk w r (h (number_of a)),
        service_receivers-done env chunk w rs h,
      )
      refl

-- The loop ended with StopIteration of the producer.
IsOver : Ended → Type 0
IsOver e =
    (e.is_raised ≡ false)
    × (has_receivers e.receivers ≡ true)
    × (e.seen_stop_iteration ≡ true)
    × (e.left ≡ [])

after_service-IsOver :
    (again : List Receiver → Ended) (left : List Produced) (x : List Receiver × List Receiver)
    → x.1 ≡ []
    → IsOver (again x.0)
    → IsOver (after_service again left x)
unfolding after_service
after_service-IsOver again left (kept, []) e h = h
after_service-IsOver again left (kept, f ∷ fs) e h = absurd cc

module _ (pq : Bool) (env : ℕ → ℕ → List Sending) (n : ℕ) where
  IsWilling-le : (k m : ℕ) → IsWilling n (env k m) → (j : ℕ) → j ≤ n → IsWilling j (env k m)
  IsWilling-le k m h j l = (h.0, omega (arith, h.1))

  copy_loop-IsOver :
      (k : ℕ) (chunks : List (List Bytes)) (rs : List Receiver)
      → ((l i : ℕ) → IsWilling n (env l i))
      → All (IsSendable pq n) chunks
      → has_receivers rs ≡ true
      → IsOver (copy_loop pq env k (map lines chunks) rs)
  unfolding copy_loop has_receivers IsOver after_distribute distribute
  copy_loop-IsOver k chunks [] t h some_left = absurd cc
  copy_loop-IsOver k [] (r ∷ rs) t h some_left = (refl, refl, refl, refl)
  copy_loop-IsOver k (chunk ∷ chunks) (r ∷ rs) t ((w, made, l), h) some_left =
      let willing = λ (i : ℕ). IsWilling-le k i (t k i) (length w) l in
      let no_fault = service_receivers-done (env k) chunk w (r ∷ rs) willing in
      let same = service_receivers-accept (env k) chunk w (r ∷ rs) no_fault in
      let later =
        copy_loop-IsOver (suc k) chunks (map (received (chunk ∷ []) w) (r ∷ rs)) t h refl in
      rw made (
        after_service-IsOver (λ qs. copy_loop pq env (suc k) (map lines chunks) qs)
          (map lines chunks) (service_receivers (env k) (map (accept chunk w) (r ∷ rs))) no_fault
          (rw same later))

all_exit-true :
    (exits : ℕ → Bool) (rs : List Receiver) → ((i : ℕ) → exits i ≡ true) → all_exit exits rs ≡ true
unfolding all_exit
all_exit-true exits [] h = refl
all_exit-true exits (r ∷ rs) h = rw (h (number_of r), all_exit-true exits rs h) refl

exit_copy-IsOver :
    (exits : ℕ → Bool) (pq : Bool) (e : Ended)
    → ((i : ℕ) → exits i ≡ true)
    → IsOver e
    → (exit_copy pq exits e).0 ≡ true
unfolding exit_copy service_again IsOver
exit_copy-IsOver exits pq e h (running, some_left, stop, over) =
    rw (some_left, over) (rw (some_left, running, all_exit-true exits e.receivers h) refl)

-- `run` returns without CopyFail if there is a receiver, the iterator gives lists of lines of which
-- the messages can be made, each call of `send` takes at least a byte, no call of a receiver
-- raises, and every receiver exits. More calls of `send` than a round has bytes are enough.
pub run_copy-returns :
    (n : ℕ) (exits : ℕ → Bool) (env : ℕ → ℕ → List Sending) (chunks : List (List Bytes))
    (rs : List Receiver)
    → has_receivers rs ≡ true
    → All (IsSendable (takes_messages rs) n) chunks
    → ((k i : ℕ) → IsWilling n (env k i))
    → ((i : ℕ) → exits i ≡ true)
    → (run_copy exits env (map lines chunks) rs).0 ≡ true
unfolding run_copy
run_copy-returns n exits env chunks rs some_left s t h =
    let pq = takes_messages rs in
    exit_copy-IsOver exits pq (copy_loop pq env 0 (map lines chunks) rs) h
      (copy_loop-IsOver pq env n 0 chunks rs t s some_left)
