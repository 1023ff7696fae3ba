-- ===== src/Logger/Order.antt =====
-- What is written is what was logged, in the order in which it was logged.
use pg_cluster.Base.{
  All, Bool, Bool-cases, Bytes, List, Option, [], ap, append-nil, append_assoc, arith, false,
  if_cases, if◌then◌else◌, inl, inr, leb, none, refl, some, sym, true, ℕ, ◌%◌, ◌++◌, ◌==◌, ◌||◌,
  ◌∙◌, ◌∷◌, ◌≡◌, ◌≤◌,
}
use pg_cluster.Logger.{
  Code, Entry, Event, PscLogger, debug_code, error_code, flush_data, info_code, is_enabled,
  is_logged, log, logs, new_logger, on_event, run_events, run_logger, stop, stops, unknown_code,
  wake, wakes, warning_code, write_all,
}

-- The entries that are logged at a level
unfoldable pub logged_of : ℕ → List Event → List Entry
logged_of level [] = []
logged_of level (logs msg code ∷ es) =
    let rest = logged_of level es in if is_logged code level then (code, msg) ∷ rest else rest
logged_of level (wakes n ∷ es) = logged_of level es
logged_of level (stops ∷ es) = logged_of level es

-- Every queued entry is written by `logging`.
enabled_lem : (code : Code) (level : ℕ) → is_logged code level ≡ true → is_enabled code level ≡ true
unfolding is_logged is_enabled
enabled_lem debug_code level h = ground arith
enabled_lem info_code level h = h
enabled_lem warning_code level h = h
enabled_lem error_code level h = h
enabled_lem unknown_code level h = h

abbrev AllLogged : ℕ → List Entry → Type 0
AllLogged level queue = All (λ e. is_logged e.0 level ≡ true) queue

write_all-AllLogged :
    (level : ℕ) (queue : List Entry) → AllLogged level queue → write_all level queue ≡ queue
unfolding write_all
write_all-AllLogged level [] h = refl
write_all-AllLogged level ((code, msg) ∷ queue) h =
    rw (enabled_lem code level h.0, write_all-AllLogged level queue h.1) refl

All-append {ℓ κ} :
    {A : Type ℓ} (P : A → Type κ) (xs ys : List A) → All P xs → All P ys → All P (xs ++ ys)
All-append P [] ys h k = k
All-append P (x ∷ xs) ys h k = (h.0, All-append P xs ys h.1 k)

-- What stands between the events: the queue has logged entries only.
abbrev IsQueued : PscLogger → Type 0
IsQueued s = AllLogged s.log_level s.log_queue

-- What has been written and what is queued, together
abbrev entries : PscLogger → List Entry
entries s = s.written ++ s.log_queue

-- A step adds what it logs behind the rest.
abbrev IsAdded : PscLogger → List Entry → PscLogger → Type 0
IsAdded s new t = (entries t ≡ entries s ++ new) × IsQueued t × (t.log_level ≡ s.log_level)

IsAdded-none : (s : PscLogger) → IsQueued s → IsAdded s [] s
IsAdded-none s h = (sym (append-nil (entries s)), h, refl)

flush_data-IsAdded : (s : PscLogger) → IsQueued s → IsAdded s [] (flush_data s)
unfolding flush_data
flush_data-IsAdded s h = (
  ap (λ (t : List Entry). (s.written ++ t) ++ []) (write_all-AllLogged s.log_level s.log_queue h),
  tt,
  refl,
)

log-IsAdded :
    (msg : Bytes) (code : Code) (s : PscLogger)
    → IsQueued s
    → IsAdded s (logged_of s.log_level (logs msg code ∷ [])) (log msg code s)
unfolding log logged_of
log-IsAdded msg code s h = elim (Bool-cases (is_logged code s.log_level)) [
  | inl kept ↦ rw kept (
    sym (append_assoc s.written s.log_queue ((code, msg) ∷ [])),
    All-append (λ (e : Entry). is_logged e.0 s.log_level ≡ true) s.log_queue ((code, msg) ∷ []) h
        (kept, tt),
    refl,
  )
  | inr left ↦ rw left (IsAdded-none s h)
]

wake-IsAdded : (n : ℕ) (s : PscLogger) → IsQueued s → IsAdded s [] (wake n s)
unfolding wake
wake-IsAdded n s h =
    if_cases (λ t. IsAdded s [] t) ((n % 50 == 0) || s.do_stop) _ _ (λ _. flush_data-IsAdded s h)
      (λ _. IsAdded-none s h)

on_event-IsAdded :
    (e : Event) (s : PscLogger)
    → IsQueued s
    → IsAdded s (logged_of s.log_level (e ∷ [])) (on_event e s)
unfolding on_event logged_of
on_event-IsAdded (logs msg code) s h = unfold logged_of in log-IsAdded msg code s h
on_event-IsAdded (wakes n) s h = wake-IsAdded n s h
on_event-IsAdded stops s h = unfold stop in IsAdded-none s h

logged_of-cons :
    (level : ℕ) (e : Event) (es : List Event)
    → logged_of level (e ∷ es) ≡ logged_of level (e ∷ []) ++ logged_of level es
unfolding logged_of
logged_of-cons level (logs msg code) es = elim (Bool-cases (is_logged code level)) [
  | inl kept ↦ rw kept refl
  | inr left ↦ rw left refl
]
logged_of-cons level (wakes n) es = refl
logged_of-cons level stops es = refl

run_events-IsAdded :
    (es : List Event) (s : PscLogger)
    → IsQueued s
    → IsAdded s (logged_of s.log_level es) (run_events es s)
unfolding run_events
run_events-IsAdded [] s h = unfold logged_of in IsAdded-none s h
run_events-IsAdded (e ∷ es) s h =
    let (p, q, r) = on_event-IsAdded e s h in
    let (p1, q1, r1) = run_events-IsAdded es (on_event e s) q in
    let new = logged_of s.log_level (e ∷ []) in
    (
      p1
          ∙ rw (p, r) (append_assoc (entries s) new (logged_of s.log_level es))
          ∙ ap (λ (t : List Entry). entries s ++ t) (sym (logged_of-cons s.log_level e es)),
      q1,
      r1 ∙ r,
    )

-- The level of a message, as `logging` has it
abbrev pub severity : Code → Option ℕ
severity debug_code = some 10
severity info_code = some 20
severity warning_code = some 30
severity error_code = some 40
severity unknown_code = none

abbrev is_due : ℕ → Option ℕ → Bool
is_due level none = false
is_due level (some n) = leb level n

-- The messages whose severity is the level or above, in the order of the calls
abbrev pub due_of : ℕ → List Event → List Entry
due_of level [] = []
due_of level (logs msg code ∷ es) =
    if is_due level (severity code) then (code, msg) ∷ due_of level es else due_of level es
due_of level (wakes n ∷ es) = due_of level es
due_of level (stops ∷ es) = due_of level es

is_logged_due :
    (code : Code) (level : ℕ) → 10 ≤ level → is_logged code level ≡ is_due level (severity code)
unfolding is_logged
is_logged_due debug_code level h = ground arith
is_logged_due info_code level h = refl
is_logged_due warning_code level h = refl
is_logged_due error_code level h = refl
is_logged_due unknown_code level h = refl

logged_of-due_of : (level : ℕ) (es : List Event) → 10 ≤ level → logged_of level es ≡ due_of level es
unfolding logged_of
logged_of-due_of level [] h = refl
logged_of-due_of level (logs msg code ∷ es) h =
    rw (is_logged_due code level h, logged_of-due_of level es h) refl
logged_of-due_of level (wakes n ∷ es) h = logged_of-due_of level es h
logged_of-due_of level (stops ∷ es) h = logged_of-due_of level es h

-- When the logger has run to its end, it has written every message of its level or above that was
-- logged before its last flush, once and in the order of the calls, however the calls and its
-- rounds were interleaved. The level is that of DEBUG at least.
pub run_logger_lem :
    (level : ℕ) (events : List Event)
    → 10 ≤ level
    → (run_logger events (new_logger level)).written ≡ due_of level events
unfolding run_logger flush_data
run_logger_lem level events h =
    let s = new_logger level in
    let (p, q, r) = run_events-IsAdded events s (unfold new_logger in tt) in
    let t = run_events events s in
    rw (write_all-AllLogged t.log_level t.log_queue q)
      (p ∙ (unfold new_logger in logged_of-due_of level events h))
