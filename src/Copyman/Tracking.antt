-- ===== src/Copyman/Tracking.antt =====
-- `update` of `WireState` (copyman.py) keeps track of the position, whatever the cuts of the stream.
use pg_cluster.Base.{
  Bool, Bool-cases, Bytes, [], ap, arith, drop, false, inl, inr, leb, length, length-append,
  length-drop, length-take, ltb, none, ok, refl, some, suc, sym, take, take-append-drop, true, zero,
  ℕ, ◌++◌, ◌+◌, ◌-◌, ◌<◌, ◌==◌, ◌∙◌, ◌∷◌, ◌≡◌, ◌≢◌, ◌≤◌,
}
use pg_cluster.Base.Int.{negsuc, pos}
use pg_cluster.Buffer.Cut.{cut}
use pg_cluster.Buffer.Observe.{drop_long}
use pg_cluster.Copyman.Header.{
  follow-header_cut, follow_step, header_run-body, join_header_cut, join_header_whole, size_run,
  size_run-body, size_run-enough,
}
use pg_cluster.Copyman.Position.{
  IsOpen, IsSound, Position, between, ends_message, follow, follow-body, follow-body_open,
  follow-stopped, in_body, in_header, malformed, next_position, stopped,
}
use pg_cluster.Copyman.Wire.{
  Updated, WireState, diff, enter_view, getlen, join_header, look, new_wire, scan, skip_body,
  update, update_open, wire_loop,
}

-- The state for a position; a header with a size below 4 has none.
unfoldable pub state_at : Position → WireState
state_at between = new_wire
state_at (in_header f) = record { remaining_bytes = negsuc 0; size_fragment = f; final_view = none }
state_at (in_body m) = record {
  remaining_bytes = pos (suc m);
  size_fragment = [];
  final_view = none;
}
state_at (stopped v) = record { remaining_bytes = pos 0; size_fragment = []; final_view = some v }
state_at malformed = new_wire

abbrev as_updated : ℕ × Position → Updated
as_updated (n, p) = (n, state_at p)

diff_pos : (a b m : ℕ) → a ≡ b + suc m → diff a b ≡ pos (suc m)
unfolding diff
diff_pos a b m e =
    let test : leb b a ≡ true = ground arith in
    let left : a - b ≡ suc m = omega arith in rw (test, left) refl

length_ne_nil : (v : Bytes) → 0 < length v → v ≢ []
length_ne_nil [] h e = absurd (omega arith)
length_ne_nil (x ∷ v) h e = cc

take_all : (k : ℕ) (w : Bytes) → length w ≤ k → take k w ≡ w
take_all zero [] e = refl
take_all zero (x ∷ w) e = absurd (omega arith)
take_all (suc k) [] e = refl
take_all (suc k) (x ∷ w) e = ap (λ (u : Bytes). x ∷ u) (take_all k w (omega arith))

module _ (condition : ℕ → Bool) where
  module _ (again : ℕ → Updated) (n : ℕ) where
    look_header :
        (b : ℕ) (v : Bytes)
        → condition b ≡ false
        → ((m : ℕ)
            → IsSound (follow condition n (in_body m) (b ∷ v))
            → again (suc m) ≡ as_updated (follow condition n (in_body m) (b ∷ v)))
        → IsSound (follow condition n between (b ∷ v))
        → look condition again [] (b ∷ v, length (b ∷ v), 0, n)
          ≡ as_updated (follow condition n between (b ∷ v))
    unfolding look
    look_header b [] e k h =
        rw (e, follow-header_cut condition n b [] e (omega arith)) (unfold state_at in refl)
    look_header b (a ∷ []) e k h =
        rw (e, follow-header_cut condition n b (a ∷ []) e (omega arith)) (unfold state_at in refl)
    look_header b (a ∷ c ∷ []) e k h =
        rw (e, follow-header_cut condition n b (a ∷ c ∷ []) e (omega arith))
          (unfold state_at in refl)
    look_header b (a ∷ c ∷ d ∷ []) e k h =
        rw (e, follow-header_cut condition n b (a ∷ c ∷ d ∷ []) e (omega arith))
          (unfold state_at in refl)
    look_header b (a ∷ c ∷ d ∷ f ∷ v) e k h =
        let size = getlen (a ∷ c ∷ d ∷ f ∷ []) in
        let same = header_run-body condition n b a c d f v e h in
        let long : ltb (length (b ∷ a ∷ c ∷ d ∷ f ∷ v)) 5 ≡ false = ground arith in
        rw (e, long) (ap again (add_one size) ∙ k size (rw same at h) ∙ ap as_updated (sym same))
      where
        add_one : (m : ℕ) → m + 1 ≡ suc m
        add_one m = omega arith

    look_lem :
        (view : Bytes)
        → ((m : ℕ)
            → IsSound (follow condition n (in_body m) view)
            → again (suc m) ≡ as_updated (follow condition n (in_body m) view))
        → IsSound (follow condition n between view)
        → look condition again [] (view, length view, 0, n)
          ≡ as_updated (follow condition n between view)
    look_lem [] k h = unfold look follow state_at new_wire in refl
    look_lem (b ∷ v) k h = elim (Bool-cases (condition b)) [
      | inl end ↦
          let stop : next_position condition between b ≡ stopped (b ∷ []) =
            unfold next_position in rw end refl in
          let same =
            follow_step condition n n b between (stopped (b ∷ [])) v (unfold ends_message in refl)
              stop
            ∙ follow-stopped condition n (b ∷ []) v in
          rw same (unfold look state_at in rw end refl)
      | inr more ↦ look_header b v more k h
    ]

  wire_loop_body :
      (fuel : ℕ) (view : Bytes) (m n : ℕ)
      → length view < fuel
      → IsSound (follow condition n (in_body m) view)
      → wire_loop condition fuel [] view (length view) (suc m) n
        ≡ as_updated (follow condition n (in_body m) view)
  unfolding wire_loop skip_body
  wire_loop_body zero view m n l h = absurd (omega arith)
  wire_loop_body (suc fuel) view m n l h = elim (Bool-cases (leb (suc m) (length view))) [
    | inl whole ↦
        let inside : m < length view = ground arith in
        let rest = drop (suc m) view in
        let left : length view - suc m ≡ length rest = sym (length-drop (suc m) view) in
        let same = follow-body condition m n view inside in
        rw (whole, left, same)
          (look_lem (λ more. wire_loop condition fuel [] rest (length rest) more (n + 1)) (n + 1)
            rest (λ k sound. wire_loop_body fuel rest k (n + 1) (omega (arith, left)) sound)
            (rw same at h))
    | inr cut ↦
        let outside : length view ≤ m = ground arith in
        let all : drop (suc m) view ≡ [] = drop_long (suc m) view (omega arith) in
        let left : suc m - length view ≡ suc (m - length view) = omega arith in
        rw (cut, all, left, follow-body_open condition m n view outside)
          (unfold look state_at in refl)
  ]

  scan_body :
      (m : ℕ) (view : Bytes)
      → IsSound (follow condition 0 (in_body m) view)
      → scan condition (pos (suc m)) [] view ≡ as_updated (follow condition 0 (in_body m) view)
  unfolding scan
  scan_body m view h = wire_loop_body (suc (suc (length view))) view m 0 (omega arith) h

  -- In a header: the state that `enter_view` gives, and what `scan` makes of it.
  scan_header :
      (f view : Bytes)
      → length f < 4
      → IsSound (follow condition 0 (in_header f) view)
      → scan condition (join_header f view).0 (join_header f view).1 view
        ≡ as_updated (follow condition 0 (in_header f) view)
  unfolding join_header
  scan_header f view l h = elim (Bool-cases (ltb (length f + length view) 4)) [
    | inl short_view ↦
        let few : length view ≤ 4 - length f = ground arith in
        let all : take (4 - length f) view ≡ view = take_all (4 - length f) view few in
        let short : (length (f ++ view) == 4) ≡ false = ground (arith, length-append f view) in
        rw (all, short, join_header_cut condition f view (ground arith))
          (unfold scan state_at in refl)
    | inr enough ↦
        let front = take (4 - length f) view in
        let v = drop (4 - length f) view in
        let long : 4 - length f ≤ length view = ground arith in
        let four : length front ≡ 4 - length f = length-take (4 - length f) view long in
        let whole : (length (f ++ front) == 4) ≡ true =
          ground (arith, length-append f front, four) in
        let size = getlen (f ++ front) in
        let joined : front ++ v ≡ view = take-append-drop (4 - length f) view in
        let some_front = length_ne_nil front (omega (arith, four)) in
        let sized : follow condition 0 (in_header f) view ≡ size_run condition 0 size v =
          ap (λ (w : Bytes). follow condition 0 (in_header f) w) (sym joined)
          ∙ join_header_whole condition f front v some_front (omega (arith, four)) in
        let large : 4 ≤ size = size_run-enough condition 0 size v (rw sized at h) in
        let m : ℕ = size - length f - 1 in
        let body : follow condition 0 (in_body m) view ≡ size_run condition 0 size v =
          ap (λ (w : Bytes). follow condition 0 (in_body m) w) (sym joined)
          ∙ size_run-body condition front v 0 size m some_front large (omega (arith, four)) in
        let remains : diff size (length f) ≡ pos (suc m) =
          diff_pos size (length f) m (omega arith) in
        rw (whole, remains)
          (scan_body m view (rw (body ∙ sym sized) h) ∙ ap as_updated (body ∙ sym sized))
  ]

  -- From any position between two calls, `update` returns the number of messages that end in the
  -- view, and its state is that of the position behind it: unless a size is below 4.
  pub update_lem :
      (p : Position) (view : Bytes)
      → IsOpen p
      → IsSound (follow condition 0 p view)
      → update condition view (state_at p) ≡ ok (as_updated (follow condition 0 p view))
  unfolding update update_open enter_view state_at new_wire
  update_lem between view o h = ap ok (
      unfold scan wire_loop skip_body new_wire in
      look_lem (λ more. wire_loop condition (suc (length view)) [] view (length view) more 0) 0 view
        (λ k sound. wire_loop_body (suc (length view)) view k 0 (omega arith) sound) h)
  update_lem (in_header f) view o h = ap ok (scan_header f view o h)
  update_lem (in_body m) view o h = ap ok (scan_body m view h)
  update_lem (stopped v) view o h = absurd o
  update_lem malformed view o h = absurd o
