-- ===== src/Worker/Reached.antt =====
-- The loop of `cluster_specific_execute` gets to a host that can be reached.
use pg_cluster.Base.{
  All, Bytes, List, [], ap, append_assoc, arith, ltb_irrefl, lt→ltb, none, refl, some, suc, zero, ℕ,
  ◌++◌, ◌+◌, ◌<◌, ◌∙◌, ◌∷◌, ◌≡◌,
}
use pg_cluster.Worker.{rotate}
use pg_cluster.Worker.Setup.{
  Round, Setup, catch, client_cannot_connect, new_setup, next_setup, open_host, round_at, run_func,
  run_rounds, set_name, try_round,
}

abbrev pub IsUnreachable : (Bytes → Round) → Bytes → Type 0
IsUnreachable net host = (net host).open_fault ≡ some client_cannot_connect

abbrev pub IsGood : (Bytes → Round) → Bytes → Type 0
IsGood net host =
    ((net host).open_fault ≡ none)
    × ((net host).execute_fault ≡ none)
    × ((net host).func_fault ≡ none)

-- The failures that the hosts in front of it cost
unfoldable pub failures : ℕ → List Bytes → ℕ
failures bound [] = 0
failures bound (h ∷ hs) = bound + failures bound hs

abbrev at_attempt : List Bytes → ℕ → Setup
at_attempt hosts a = record (new_setup hosts) { reconnect_attempt = a }

module _ (bound : ℕ) (net : Bytes → Round) where
  one_more :
      (n : ℕ) (a : ℕ) (h : Bytes) (hs : List Bytes)
      → IsUnreachable net h
      → a < bound
      → run_rounds (suc n) bound net (at_attempt (h ∷ hs) a)
        ≡ run_rounds n bound net (at_attempt (h ∷ hs) (a + 1))
  unfolding run_rounds round_at try_round next_setup open_host catch new_setup
  one_more n a h hs bad l = rw (lt→ltb a bound l, bad) refl

  bad_host :
      (d a n m : ℕ) (h : Bytes) (hs : List Bytes)
      → IsUnreachable net h
      → a + d ≡ bound
      → n ≡ d + m
      → run_rounds n bound net (at_attempt (h ∷ hs) a)
        ≡ run_rounds m bound net (at_attempt (h ∷ hs) bound)
  bad_host zero a n m h hs bad e k =
      let same : n ≡ m = omega arith in let there : a ≡ bound = omega arith in rw (same, there) refl
  bad_host (suc d) a n m h hs bad e k =
      let one : n ≡ suc (d + m) = omega arith in
      rw one (
        one_more (d + m) a h hs bad (omega arith)
        ∙ bad_host d (a + 1) (d + m) m h hs bad (omega arith) refl)

  next_turn :
      (m : ℕ) (h : Bytes) (hs : List Bytes)
      → 0 < bound
      → run_rounds (suc m) bound net (at_attempt (h ∷ hs) bound)
        ≡ run_rounds (suc m) bound net (at_attempt (hs ++ h ∷ []) 0)
  unfolding run_rounds round_at try_round next_setup new_setup rotate
  next_turn m h hs l = rw (ltb_irrefl bound, lt→ltb 0 bound l) refl

  good_host :
      (h : Bytes) (hs : List Bytes)
      → IsGood net h
      → 0 < bound
      → (run_rounds 1 bound net (at_attempt (h ∷ hs) 0)).runs ≡ h ∷ []
  unfolding run_rounds round_at try_round next_setup open_host set_name run_func new_setup
  good_host h hs good l = rw (lt→ltb 0 bound l, good.0, good.1, good.2) refl

  -- Where every host in front of a good one cannot be reached, and the limit is not 0, the loop runs
  -- the function once, on the good host, after as many rounds as it takes to give up the others:
  -- the limit for each.
  pub run_rounds_lem :
      (before : List Bytes) (good : Bytes) (after : List Bytes)
      → 0 < bound
      → All (IsUnreachable net) before
      → IsGood net good
      → (run_rounds
          (suc (failures bound before))
          bound
          net
          (new_setup (before ++ good ∷ after))).runs
        ≡ good ∷ []
  unfolding failures new_setup
  run_rounds_lem [] good after l bad g = good_host good after g l
  run_rounds_lem (h ∷ hs) good after l bad g =
      let n = failures bound hs in
      let given_up =
        bad_host bound 0 (suc (bound + n)) (suc n) h (hs ++ good ∷ after) bad.0 (omega arith)
          (omega arith) in
      let turned = next_turn n h (hs ++ good ∷ after) l in
      let same : hs ++ good ∷ after ++ h ∷ [] ≡ hs ++ (good ∷ after ++ h ∷ []) =
        append_assoc hs (good ∷ after) (h ∷ []) in
      ap (λ (s : Setup). s.runs) (given_up ∙ turned)
      ∙ ap (λ (v : List Bytes). (run_rounds (suc n) bound net (at_attempt v 0)).runs) same
      ∙ run_rounds_lem hs good (after ++ h ∷ []) l bad.1 g
