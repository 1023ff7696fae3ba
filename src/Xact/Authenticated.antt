-- ===== src/Xact/Authenticated.antt =====
-- A negotiation that completes has failed, or the server accepted it and is ready.
use mathlib.Core.Path.{subst}
use pg_cluster.Base.{
  ==_iff, Bool-cases, Bytes, List, Option, Option-cases, Outcome, [], inl, inr, none, ok, raise,
  refl, some, sym, ℕ, ◌+◌, ◌==◌, ◌∷◌, ◌≡◌,
}
use pg_cluster.Buffer.Stream.{Frame}
use pg_cluster.Element.Message.{Message, Parsed, authentication, kill_information, ready}
use pg_cluster.Xact.Hook.{asynchronous}
use pg_cluster.Xact.Negotiation.{
  Negotiation, Phase, Refusal, Sent, accept, after_send, authenticate, awaits_answer,
  awaits_authentication, awaits_killinfo, awaits_ready, completed_state, finished, leave,
  machine_at, machine_send, note_async, note_killinfo, note_last_ready, put_frames, put_messages,
  put_one, put_refusal, receiving, refuse, send_answer, sending, stops, throws, yields,
}
use pg_cluster.Xact.Put.{is_last}
use pg_cluster.Xact.Sound.{
  IsAccepted, IsKnown, IsKnown-async, IsKnown-outbox, IsKnown-received, IsKnown-refused, IsOpen,
  IsPut, IsPut-if, IsSent, IsSome, IsSound, still_open,
}

note_killinfo_lem :
    (s : Negotiation) (o : Outcome Message)
    → IsAccepted s.authok
    → IsOpen s
    → IsSent (note_killinfo s o)
unfolding note_killinfo leave
note_killinfo_lem s (raise e) k h = tt
note_killinfo_lem s (ok (kill_information pid key)) k h = ((k, tt), h)
note_killinfo_lem s (ok _) k h = tt

note_last_ready_lem :
    (s : Negotiation) (o : Outcome Message)
    → IsAccepted s.authok
    → IsSome s.killinfo
    → IsOpen s
    → IsSent (note_last_ready s o)
unfolding note_last_ready leave
note_last_ready_lem s (raise e) k l h = tt
note_last_ready_lem s (ok (ready x)) k l h = (inr (k, l, tt), h.0, inr (k, l, tt))
note_last_ready_lem s (ok _) k l h = tt

refuse_lem : (s : Negotiation) (r : Refusal) → IsSent (refuse r s)
unfolding refuse
refuse_lem s r = (inl (refl, tt), (λ q. tt), inl (refl, tt))

module _ (crypt : Bytes → Bytes → Bytes) (md5_hex : Bytes → Bytes) where
  send_answer_lem :
      (s : Negotiation) (request : ℕ) (o : Outcome (Option Bytes))
      → IsOpen s
      → IsSent (send_answer s request o)
  unfolding send_answer leave
  send_answer_lem s request (raise e) h = tt
  send_answer_lem s request (ok none) h = (inl (refl, tt), (λ q. tt), inl (refl, tt))
  send_answer_lem s request (ok (some p)) h = (tt, h)

  authenticate_lem :
      (s : Negotiation) (o : Outcome Message) → IsOpen s → IsSent (authenticate crypt md5_hex s o)
  unfolding authenticate leave
  authenticate_lem s (raise e) h = tt
  authenticate_lem s (ok (authentication request salt)) h = elim (Bool-cases (request == 0)) [
    | inl free ↦ rw free ((==_iff request 0).0 free, h)
    | inr asked ↦
        rw asked (send_answer_lem (record s { authtype = some (request, salt) }) request _ h)
  ]
  authenticate_lem s (ok _) h = tt

  accept_lem : (s : Negotiation) (o : Outcome Message) → IsOpen s → IsSent (accept s o)
  unfolding accept leave
  accept_lem s (raise e) h = tt
  accept_lem s (ok (authentication request salt)) h = elim (Bool-cases (request == 0)) [
    | inl free ↦ rw free ((==_iff request 0).0 free, h)
    | inr other ↦ rw other (refuse_lem _ _)
  ]
  accept_lem s (ok _) h = tt

  machine_at_lem :
      (p : Phase) (t : ℕ) (v : Bytes) (s : Negotiation)
      → s.phase ≡ p
      → IsKnown p s
      → IsOpen s
      → IsSent (machine_at crypt md5_hex p (t, v) s)
  unfolding machine_at
  machine_at_lem awaits_authentication t v s e k h = elim (Bool-cases (t == b'R')) [
    | inl hit ↦ rw hit (authenticate_lem s _ h)
    | inr other ↦ rw other (refuse_lem s _)
  ]
  machine_at_lem awaits_answer t v s e k h = accept_lem s _ h
  machine_at_lem awaits_killinfo t v s e k h = elim (Bool-cases (t == b'K')) [
    | inl hit ↦ rw hit (note_killinfo_lem s _ k h)
    | inr other ↦ rw other (refuse_lem s _)
  ]
  machine_at_lem awaits_ready t v s e k h = elim (Bool-cases (t == b'Z')) [
    | inl hit ↦ rw hit (note_last_ready_lem s _ k.0 k.1 h)
    | inr other ↦ rw other (refuse_lem s _)
  ]
  machine_at_lem finished t v s e k h = (k, h.0, subst (λ p. IsKnown p s) (sym e) k)

-- Sound with any state but complete
open-IsSound : (s : Negotiation) → IsKnown s.phase s → IsOpen s → IsSound s
open-IsSound s k h = (k, h.0, λ q. still_open s s.turnover h.1 q)

module _ (again : Negotiation → Outcome ℕ × Negotiation)
    (later : (t : Negotiation) → IsKnown t.phase t → IsOpen t → IsPut (again t)) where
  after_send_lem : (n : ℕ) (o : Sent) → IsSent o → IsPut (after_send again n o)
  unfolding after_send
  after_send_lem n (yields [] s) h = later s h.0 h.1
  after_send_lem n (yields (m ∷ ms) s) h =
      (IsKnown-outbox s.phase s (m ∷ ms) sending h.0, h.1.0, λ q. absurd cc)
  after_send_lem n (stops s) h =
      (IsKnown-outbox s.phase s s.outbox completed_state h.2, h.1, λ q. h.0)
  after_send_lem n (throws e s) h = tt

  note_async_lem :
      (s : Negotiation) (o : Outcome Parsed)
      → IsKnown s.phase s
      → IsOpen s
      → IsPut (note_async again s o)
  unfolding note_async
  note_async_lem s (raise e) k h = tt
  note_async_lem s (ok m) k h = later _ (IsKnown-async s.phase s _ k) h

  put_refusal_lem :
      (n : ℕ) (s : Negotiation) (o : Outcome Message)
      → IsKnown s.phase s
      → IsPut (put_refusal n s o)
  unfolding put_refusal
  put_refusal_lem n s (raise e) k = tt
  put_refusal_lem n s (ok m) k = (IsKnown-refused s.phase s _ k, (λ q. tt), λ q. inl (refl, tt))

  put_one_lem :
      (crypt : Bytes → Bytes → Bytes) (md5_hex : Bytes → Bytes) (n : ℕ) (x : Frame)
      (s : Negotiation)
      → IsKnown s.phase s
      → IsOpen s
      → IsPut (put_one crypt md5_hex again n x s)
  unfolding put_one machine_send
  put_one_lem crypt md5_hex n (t, v) s k h = elim (Bool-cases (t == b'E')) [
    | inl fault ↦ rw fault (IsPut-if s.failed _ _ (later s k h) (put_refusal_lem n s _ k))
    | inr other ↦ rw other (elim (Option-cases (asynchronous t)) [
      | inl none_there ↦
          rw none_there (after_send_lem n _ (machine_at_lem crypt md5_hex s.phase t v s refl k h))
      | inr (c, there) ↦ rw there (note_async_lem s _ k h)
    ])
  ]

module _ (crypt : Bytes → Bytes → Bytes) (md5_hex : Bytes → Bytes) where
  put_frames_lem :
      (n : ℕ) (xs : List Frame) (s : Negotiation)
      → IsKnown s.phase s
      → IsOpen s
      → IsPut (put_frames crypt md5_hex n xs s)
  unfolding put_frames
  put_frames_lem n [] s k h = open-IsSound s k h
  put_frames_lem n (x ∷ xs) s k h =
      put_one_lem _ (λ t k' h'. put_frames_lem (n + 1) xs t k' h') crypt md5_hex (n + 1) x s k h

  -- Messages put into a sound negotiation that is receiving leave it sound, unless they raise. So
  -- a negotiation that is complete has an error message, or the server said OK to the
  -- authentication, gave the key for cancelling and is ready.
  pub put_messages-IsSound :
      (i : ℕ) (messages : List Frame) (s : Negotiation)
      → IsSound s
      → s.turnover ≡ receiving
      → IsPut (put_messages crypt md5_hex i messages s)
  unfolding put_messages
  put_messages-IsSound i messages s sound open' =
      IsPut-if (is_last i s.last_received) _ _ tt
        (put_frames_lem 0 messages _ (IsKnown-received s.phase s i sound.0) (sound.1, open'))
