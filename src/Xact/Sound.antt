-- ===== src/Xact/Sound.antt =====
-- What is known of a `Negotiation` where its generator waits, and when it is complete.
use pg_cluster.Base.{
  Bool, Bytes, List, Option, Outcome, false, if◌then◌else◌, inl, none, ok, raise, refl, some, true,
  ℕ, ◌≡◌, ◌⊎◌,
}
use pg_cluster.Element.Message.{Message, Parsed}
use pg_cluster.Xact.Negotiation.{
  Negotiation, Phase, Refusal, Sent, Turnover, awaits_answer, awaits_authentication,
  awaits_killinfo, awaits_ready, completed_state, finished, receiving, stops, throws, yields,
}

abbrev pub IsAccepted : Option (ℕ × Bytes) → Type 0
IsAccepted none = ⊥
IsAccepted (some (request, salt)) = request ≡ 0

abbrev pub IsSome {ℓ} : {A : Type ℓ} → Option A → Type 0
IsSome none = ⊥
IsSome (some a) = Unit

-- The server said OK, gave the key for cancelling, and is ready.
abbrev pub IsEstablished : Negotiation → Type 0
IsEstablished s = IsAccepted s.authok × IsSome s.killinfo × IsSome s.ready_state

abbrev pub IsSettled : Negotiation → Type 0
IsSettled s = ((s.failed ≡ true) × IsSome s.refusal) ⊎ IsEstablished s

-- What has been received by the time `state_machine` waits at a place
abbrev pub IsKnown : Phase → Negotiation → Type 0
IsKnown awaits_authentication s = Unit
IsKnown awaits_answer s = Unit
IsKnown awaits_killinfo s = IsAccepted s.authok
IsKnown awaits_ready s = IsAccepted s.authok × IsSome s.killinfo
IsKnown finished s = IsSettled s

-- `failed` is set only together with an error message.
abbrev pub IsSound : Negotiation → Type 0
IsSound s =
    IsKnown s.phase s
    × (s.failed ≡ true → IsSome s.refusal)
    × (s.turnover ≡ completed_state → IsSettled s)

-- While messages are put
abbrev pub IsOpen : Negotiation → Type 0
IsOpen s = (s.failed ≡ true → IsSome s.refusal) × (s.turnover ≡ receiving)

-- What the generator gives leaves the negotiation sound, unless it raises.
abbrev pub IsSent : Sent → Type 0
IsSent (yields ms s) = IsKnown s.phase s × IsOpen s
IsSent (stops s) = IsSettled s × (s.failed ≡ true → IsSome s.refusal) × IsKnown s.phase s
IsSent (throws e s) = Unit

abbrev pub IsPut : Outcome ℕ × Negotiation → Type 0
IsPut (ok n, s) = IsSound s
IsPut (raise e, s) = Unit

pub still_open :
    {A : Type 0} (s : Negotiation) (t : Turnover) → t ≡ receiving → t ≡ completed_state → A
still_open s t p q = absurd cc

pub IsKnown-outbox :
    (p : Phase) (s : Negotiation) (ms : List Message) (t : Turnover)
    → IsKnown p s
    → IsKnown p (record s { outbox = ms; turnover = t })
IsKnown-outbox awaits_authentication s ms t h = h
IsKnown-outbox awaits_answer s ms t h = h
IsKnown-outbox awaits_killinfo s ms t h = h
IsKnown-outbox awaits_ready s ms t h = h
IsKnown-outbox finished s ms t h = h

pub IsKnown-async :
    (p : Phase) (s : Negotiation) (ms : List Parsed)
    → IsKnown p s
    → IsKnown p (record s { async_messages = ms })
IsKnown-async awaits_authentication s ms h = h
IsKnown-async awaits_answer s ms h = h
IsKnown-async awaits_killinfo s ms h = h
IsKnown-async awaits_ready s ms h = h
IsKnown-async finished s ms h = h

pub IsKnown-refused :
    (p : Phase) (s : Negotiation) (r : Refusal)
    → IsKnown p s
    → IsKnown p (record s { turnover = completed_state; failed = true; refusal = some r })
IsKnown-refused awaits_authentication s r h = h
IsKnown-refused awaits_answer s r h = h
IsKnown-refused awaits_killinfo s r h = h
IsKnown-refused awaits_ready s r h = h
IsKnown-refused finished s r h = inl (refl, tt)

pub IsKnown-received :
    (p : Phase) (s : Negotiation) (i : ℕ)
    → IsKnown p s
    → IsKnown p (record s { last_received = some i })
IsKnown-received awaits_authentication s i h = h
IsKnown-received awaits_answer s i h = h
IsKnown-received awaits_killinfo s i h = h
IsKnown-received awaits_ready s i h = h
IsKnown-received finished s i h = h

pub IsPut-if :
    (b : Bool) (x y : Outcome ℕ × Negotiation) → IsPut x → IsPut y → IsPut (if b then x else y)
IsPut-if true x y h k = h
IsPut-if false x y h k = k
