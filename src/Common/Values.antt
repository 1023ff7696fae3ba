-- ===== src/Common/Values.antt =====
-- `read_conf_param_value` of pg_stat_common.py, and the handler that `SignalHandler` installs.
use pg_cluster.Base.{
  Avoids, Avoids-append, Bool, List, Option, [], ap, append_assoc, arith, break_at, break_at-append,
  break_at-none, bytes_eq, false, if◌then◌else◌, none, refl, some, sym, true, ℕ, ◌++◌, ◌==◌, ◌||◌,
  ◌∙◌, ◌∷◌, ◌≡◌,
}

-- `value[0:value.find("#") - 1]` where there is a "#": the character before it is dropped too, and
-- where "#" comes first, the last character.
unfoldable pub drop_last {ℓ} : {A : Type ℓ} → List A → List A
drop_last [] = []
drop_last (x ∷ []) = []
drop_last (x ∷ y ∷ xs) = x ∷ drop_last (y ∷ xs)

unfoldable pub cut_at : List ℕ → Option (List ℕ × List ℕ) → List ℕ
cut_at value none = value
cut_at value (some ([], after)) = drop_last value
cut_at value (some (c ∷ cs, after)) = drop_last (c ∷ cs)

unfoldable pub cut_comment : List ℕ → List ℕ
cut_comment value = cut_at value (break_at 35 value)

-- The content of the first match of `"[^"]*"`
unfoldable pub first_quoted : List ℕ → Option (List ℕ)
first_quoted value = elim (break_at 34 value) [
  | none ↦ none
  | some (before, rest) ↦ elim (break_at 34 rest) [ none ↦ none | some (inner, after) ↦ some inner ]
]

-- `" \t\n\r"`
unfoldable pub is_blank : ℕ → Bool
is_blank c = (c == 32) || (c == 9) || (c == 10) || (c == 13)

unfoldable pub strip_left : List ℕ → List ℕ
strip_left [] = []
strip_left (c ∷ cs) = let rest = strip_left cs in if is_blank c then rest else c ∷ cs

unfoldable pub cons_kept : ℕ → List ℕ → List ℕ
cons_kept c [] = if is_blank c then [] else c ∷ []
cons_kept c (d ∷ ds) = c ∷ d ∷ ds

unfoldable pub strip_right : List ℕ → List ℕ
strip_right [] = []
strip_right (c ∷ cs) = cons_kept c (strip_right cs)

-- What is read where the comment has been cut off
unfoldable pub read_cut : List ℕ → List ℕ
read_cut value = elim (first_quoted value) [
  | some quoted ↦ quoted
  | none ↦ strip_right (strip_left value)
]

-- `read_conf_param_value(raw_value)`
unfoldable pub read_conf_param_value : List ℕ → List ℕ
read_conf_param_value raw_value = read_cut (cut_comment raw_value)

-- `value_res in ['1', 't', 'true', 'True', 'TRUE']`
unfoldable pub is_true : List ℕ → Bool
is_true value =
    bytes_eq value (b'1' ∷ [])
    || bytes_eq value (b't' ∷ [])
    || bytes_eq value (b't' ∷ b'r' ∷ b'u' ∷ b'e' ∷ [])
    || bytes_eq value (b'T' ∷ b'r' ∷ b'u' ∷ b'e' ∷ [])
    || bytes_eq value (b'T' ∷ b'R' ∷ b'U' ∷ b'E' ∷ [])

-- `SignalHandler`: whether a signal came, and whether the handlers were given back.
pub record SignalHandler : Type 0 where
  pub interrupted : Bool
  pub released : Bool

-- `__enter__`
unfoldable pub enter : SignalHandler
enter = record { interrupted = false; released = false }

-- `release`: its result, and whether it gives the handlers back.
unfoldable pub release_handler : SignalHandler → Bool × SignalHandler
release_handler s = if s.released then (false, s) else (true, record s { released = true })

-- The handler of both signals
unfoldable pub on_signal : SignalHandler → SignalHandler
on_signal s = record ((release_handler s).1) { interrupted = true }

-- `__exit__`
unfoldable pub exit : SignalHandler → SignalHandler
exit s = (release_handler s).1

drop_last-append {ℓ} : {A : Type ℓ} (xs : List A) (x : A) → drop_last (xs ++ x ∷ []) ≡ xs
unfolding drop_last
drop_last-append [] x = refl
drop_last-append (y ∷ []) x = refl
drop_last-append (y ∷ z ∷ xs) x = ap (λ t. y ∷ t) (drop_last-append (z ∷ xs) x)

cut_at_space : (value text comment : List ℕ) → cut_at value (some (text ++ 32 ∷ [], comment)) ≡ text
unfolding cut_at drop_last
cut_at_space value [] comment = refl
cut_at_space value (x ∷ xs) comment = drop_last-append (x ∷ xs) 32

-- A comment behind a space is cut off with the space.
cut_comment_lem :
    (text comment : List ℕ) → Avoids 35 text → cut_comment (text ++ 32 ∷ 35 ∷ comment) ≡ text
unfolding cut_comment
cut_comment_lem text comment h =
    rw
      (
        sym (append_assoc text (32 ∷ []) (35 ∷ comment)),
        break_at-append 35 (text ++ 32 ∷ []) comment
            (Avoids-append 35 text (32 ∷ []) h ((omega arith), tt)),
      )
      (cut_at_space ((text ++ 32 ∷ []) ++ 35 ∷ comment) text comment)

-- A value in quotes is read as what stands between them, with its spaces; a comment may follow.
pub read_quoted_lem :
    (text comment : List ℕ)
    → Avoids 34 text
    → Avoids 35 text
    → read_conf_param_value (34 ∷ (text ++ 34 ∷ 32 ∷ 35 ∷ comment)) ≡ text
unfolding read_conf_param_value read_cut first_quoted
read_quoted_lem text comment h k =
    let whole = 34 ∷ (text ++ 34 ∷ []) in
    let parts : 34 ∷ (text ++ 34 ∷ 32 ∷ 35 ∷ comment) ≡ whole ++ 32 ∷ 35 ∷ comment =
      ap (λ (t : List ℕ). 34 ∷ t) (sym (append_assoc text (34 ∷ []) (32 ∷ 35 ∷ comment))) in
    let clean : Avoids 35 whole =
      ((omega arith), Avoids-append 35 text (34 ∷ []) k ((omega arith), tt)) in
    rw (parts, read_conf_param_value, cut_comment_lem whole comment clean)
      (unfold break_at in rw (read_cut, break_at-append 34 text [] h) refl)

strip_left-cons : (c : ℕ) (cs : List ℕ) → is_blank c ≡ false → strip_left (c ∷ cs) ≡ c ∷ cs
unfolding strip_left
strip_left-cons c cs h = rw h refl

strip_right-append :
    (cs : List ℕ) (d : ℕ) → is_blank d ≡ false → strip_right (cs ++ d ∷ []) ≡ cs ++ d ∷ []
unfolding strip_right cons_kept
strip_right-append [] d h = rw h refl
strip_right-append (c ∷ cs) d h = rw (strip_right-append cs d h) (kept c cs d)
  where
    kept : (c : ℕ) (cs : List ℕ) (d : ℕ) → cons_kept c (cs ++ d ∷ []) ≡ c ∷ (cs ++ d ∷ [])
    kept c [] d = refl
    kept c (x ∷ xs) d = refl

read_cut_plain :
    (c d : ℕ) (text : List ℕ)
    → is_blank c ≡ false
    → is_blank d ≡ false
    → Avoids 34 (c ∷ (text ++ d ∷ []))
    → read_cut (c ∷ (text ++ d ∷ [])) ≡ c ∷ (text ++ d ∷ [])
unfolding read_cut first_quoted
read_cut_plain c d text hc hd h =
    rw (read_cut, break_at-none 34 (c ∷ (text ++ d ∷ [])) h)
      (ap strip_right (strip_left-cons c (text ++ d ∷ []) hc) ∙ strip_right-append (c ∷ text) d hd)

-- A value without quotes is read as it stands, without the space before a comment.
pub read_plain_lem :
    (c d : ℕ) (text comment : List ℕ)
    → is_blank c ≡ false
    → is_blank d ≡ false
    → Avoids 34 (c ∷ (text ++ d ∷ []))
    → Avoids 35 (c ∷ (text ++ d ∷ []))
    → read_conf_param_value (c ∷ (text ++ d ∷ 32 ∷ 35 ∷ comment)) ≡ c ∷ (text ++ d ∷ [])
unfolding read_conf_param_value
read_plain_lem c d text comment hc hd h k =
    let whole = c ∷ (text ++ d ∷ []) in
    let parts : c ∷ (text ++ d ∷ 32 ∷ 35 ∷ comment) ≡ whole ++ 32 ∷ 35 ∷ comment =
      ap (λ (t : List ℕ). c ∷ t) (sym (append_assoc text (d ∷ []) (32 ∷ 35 ∷ comment))) in
    ap read_conf_param_value parts
    ∙ ap read_cut (cut_comment_lem whole comment k)
    ∙ read_cut_plain c d text hc hd h

-- A handler that was left gives the signals back once, whatever signals came before.
pub release_handler_once :
    (s : SignalHandler)
    → ((release_handler (release_handler s).1).0 ≡ false)
      × ((release_handler s).1.released ≡ true)
      × ((release_handler s).1.interrupted ≡ s.interrupted)
unfolding release_handler
release_handler_once s = ground arith
