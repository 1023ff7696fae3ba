-- ===== src/Copyman/Produce.antt =====
-- `process_copy_data` of `ProtocolProducer` (copyman.py): what of a received view is published to the
-- receivers, and what is given back to the connection.
-- `_state`, `total_messages` and `total_bytes`
use pg_cluster.Base.{
  Bool, Bool-cases, Bytes, Option, Outcome, [], ap, append-nil, append_assoc, arith,
  attribute_error, drop, if_cases, inl, inr, leb, length, length-append, ltb, none, ok, raise, refl,
  some, suc, sym, take, take-append, take-append-drop, zero, ℕ, ◌++◌, ◌+◌, ◌-◌, ◌>>=◌, ◌∷◌, ◌≡◌,
  ◌⊎◌,
}
use pg_cluster.Base.Int.{negsuc, pos, ℤ}
use pg_cluster.Copyman.Wire.{
  Updated, WireState, enter_view, getlen, look, new_wire, scan, skip_body, update, update_open,
  wire_loop,
}

pub record Flow : Type 0 where
  pub state : Option WireState
  pub total_messages : ℕ
  pub total_bytes : ℕ

-- What is published, what `recover` is given if it is called, and the producer.
abbrev pub Published : Type 0
Published = Bytes × Option Bytes × Flow

-- `if fv: view = view[:-len(fv)]`
unfoldable pub cut_final : Bytes → Bytes → Bytes
cut_final view [] = view
cut_final view (b ∷ fv) = take (length view - length (b ∷ fv)) view

unfoldable pub count_bytes : ℕ → ℕ → Bytes → Option Bytes → Option WireState → Published
count_bytes messages bytes view recovered state = (
  view,
  recovered,
  record { state = state; total_messages = messages; total_bytes = bytes + length view },
)

unfoldable pub publish : Bytes → Flow → Updated → Published
publish view f (n, w) = elim w.final_view [
  | none ↦ count_bytes (f.total_messages + n) f.total_bytes view none (some w)
  | some fv ↦ count_bytes (f.total_messages + n) f.total_bytes (cut_final view fv) (some fv) none
]

module _ (condition : ℕ → Bool) where
  unfoldable pub process_copy_data : Bytes → Flow → Outcome Published
  process_copy_data view f = elim f.state [
    | none ↦ raise attribute_error
    | some w ↦ do u ← update condition view w; ok (publish view f u)
  ]

  -- `track_state`
  unfoldable pub track_state : Bytes → Flow → Outcome Published
  track_state view f = process_copy_data view (record f { state = some new_wire })

-- A final view is the end of the view.
IsTail : Bytes → Option Bytes → Type 0
IsTail view none = Unit
IsTail view (some fv) = (front : Bytes) × (front ++ fv ≡ view)

skip_body-drop : (view : Bytes) (vlen r n : ℕ) → (skip_body view vlen r n).0 ≡ drop r view
unfolding skip_body
skip_body-drop view vlen zero n = refl
skip_body-drop view vlen (suc r) n =
    if_cases (λ (x : Bytes × ℕ × ℕ × ℕ). x.0 ≡ drop (suc r) view) (leb (suc r) vlen) _ _ (λ e. refl)
      (λ e. refl)

module _ (condition : ℕ → Bool) where
  look-IsTail :
      (again : ℕ → Updated) (fragment whole view : Bytes) (vlen r n : ℕ)
      → ((m : ℕ) → IsTail whole (again m).1.final_view)
      → (front : Bytes) → front ++ view ≡ whole
      → IsTail whole (look condition again fragment (view, vlen, r, n)).1.final_view
  unfolding look IsTail
  look-IsTail again fragment whole [] vlen r n h front e = tt
  look-IsTail again fragment whole (b ∷ v) vlen r n h front e = elim (Bool-cases (condition b)) [
    | inl end ↦ rw end (front, e)
    | inr more ↦ elim (Bool-cases (ltb vlen 5)) [
      | inl short ↦ rw (more, short) tt
      | inr long ↦ rw (more, long) (h (getlen (take 4 v) + 1))
    ]
  ]

  wire_loop-IsTail :
      (fuel : ℕ) (fragment whole view : Bytes) (vlen r n : ℕ) (front : Bytes)
      → front ++ view ≡ whole
      → IsTail whole (wire_loop condition fuel fragment view vlen r n).1.final_view
  unfolding wire_loop IsTail
  wire_loop-IsTail zero fragment whole view vlen r n front e = tt
  wire_loop-IsTail (suc fuel) fragment whole view vlen r n front e =
      let s = skip_body view vlen r n in
      let joined : (front ++ take r view) ++ s.0 ≡ whole =
        rw (skip_body-drop view vlen r n)
          (rw (append_assoc front (take r view) (drop r view), take-append-drop r view) e) in
      look-IsTail (λ more. wire_loop condition fuel fragment s.0 s.1 more s.3) fragment whole s.0
        s.1 s.2 s.3
        (λ m. wire_loop-IsTail fuel fragment whole s.0 s.1 m s.3 (front ++ take r view) joined)
        (front ++ take r view) joined

  scan-IsTail :
      (r : ℤ) (fragment view : Bytes) → IsTail view (scan condition r fragment view).1.final_view
  unfolding scan IsTail
  scan-IsTail (negsuc k) fragment view = tt
  scan-IsTail (pos r) fragment view =
      wire_loop-IsTail (suc (suc (length view))) fragment view view (length view) r 0 [] refl

  update_open-IsTail :
      (view : Bytes) (w : WireState) → IsTail view (update_open condition view w).1.final_view
  unfolding update_open
  update_open-IsTail view w =
      let x = enter_view w.remaining_bytes w.size_fragment view in scan-IsTail x.0 x.1 view

cut_final-append : (view fv front : Bytes) → front ++ fv ≡ view → cut_final view fv ++ fv ≡ view
unfolding cut_final
cut_final-append view [] front e = append-nil view
cut_final-append view (b ∷ fv) front e =
    let count : length view - length (b ∷ fv) ≡ length front =
      omega (arith, length-append front (b ∷ fv), ap (λ (v : Bytes). length v) e) in
    rw (count, sym e, take-append front (b ∷ fv)) refl

-- What was given to `recover`
abbrev pub recovered_bytes : Option Bytes → Bytes
recovered_bytes none = []
recovered_bytes (some v) = v

-- Nothing of the view is lost: what is published and what is given back are the view; the bytes that
-- are counted are those published; and the producer has no state where something was given back.
abbrev pub IsParted : Bytes → Flow → Published → Type 0
IsParted view f (v, r, g) =
    (v ++ recovered_bytes r ≡ view)
    × (g.total_bytes ≡ f.total_bytes + length v)
    × ((r ≡ none) ⊎ (g.state ≡ none))

publish-IsParted :
    (view : Bytes) (f : Flow) (u : Updated)
    → IsTail view u.1.final_view
    → IsParted view f (publish view f u)
unfolding publish count_bytes IsTail
publish-IsParted view f (n, w) h = parted w.final_view h
  where
    parted :
        (o : Option Bytes)
        → IsTail view o
        → IsParted view f (elim o [
          | none ↦ count_bytes (f.total_messages + n) f.total_bytes view none (some w)
          | some fv ↦
              count_bytes (f.total_messages + n) f.total_bytes (cut_final view fv) (some fv) none
        ])
    parted none t = (append-nil view, refl, inl refl)
    parted (some fv) (front, e) = (cut_final-append view fv front e, refl, inr refl)

module _ (condition : ℕ → Bool) where
  -- While the state of the wire can be used, `process_copy_data` returns, and nothing of the view is
  -- lost: what is published and what is given back to the connection are the view, the bytes that are
  -- published are counted, and the state is gone where something was given back.
  pub process_copy_data-IsParted :
      (view : Bytes) (f : Flow) (w : WireState)
      → f.state ≡ some w
      → w.final_view ≡ none
      → (p : Published) × (process_copy_data condition view f ≡ ok p) × IsParted view f p
  unfolding process_copy_data update
  process_copy_data-IsParted view f w running usable =
      let u = update_open condition view w in
      (
        publish view f u,
        rw running (rw usable refl),
        publish-IsParted view f u (update_open-IsTail condition view w),
      )
