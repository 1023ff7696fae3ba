-- ===== src/Common/Masks.antt =====
-- `match` of pg_stat_common.py.
use mathlib.Core.Logic.{◌↔◌}
use pg_cluster.Base.{
  ==-ne, ==-refl, ==_iff, All, Bool, Bool-cases, List, [], ap, arith, false, if◌then◌else◌, inl,
  inr, refl, sym, true, ℕ, ◌&&◌, ◌++◌, ◌==◌, ◌||◌, ◌∙◌, ◌∷◌, ◌≡◌, ◌≢◌, ◌⊎◌,
}

-- `match(mask, text)`; `len(mask) > 1` is a test of the rest of the mask.
unfoldable pub has_more : List ℕ → Bool
has_more [] = false
has_more (x ∷ xs) = true

unfoldable pub match : List ℕ → List ℕ → Bool
match [] [] = true
match [] (t ∷ ts) = false
match (m ∷ ms) [] =
    let rest = match ms [] in
    if has_more ms && (m == 42)
    then false
    else if has_more ms && (m == 63)
    then rest
    else if m == 42
    then rest
    else false
match (m ∷ ms) (t ∷ ts) =
    let both = match ms ts in
    let skip = match ms (t ∷ ts) in
    let stay = match (m ∷ ms) ts in
    if (has_more ms && (m == 63)) || (m == t) then both else if m == 42 then skip || stay else false

-- What a mask means: a star stands for any text, and any other character for itself.
abbrev pub MatchesFirst : Bool → ℕ → (List ℕ → Type 0) → List ℕ → Type 0
MatchesFirst true m P text =
    (before : List ℕ) × (after : List ℕ) × (text ≡ before ++ after) × P after
MatchesFirst false m P text = (after : List ℕ) × (text ≡ m ∷ after) × P after

abbrev pub Matches : List ℕ → List ℕ → Type 0
Matches [] text = text ≡ []
Matches (m ∷ ms) text = MatchesFirst (m == 42) m (λ t. Matches ms t) text

-- No question mark, and no two stars that follow each other.
abbrev pub IsPlain : List ℕ → Type 0
IsPlain [] = Unit
IsPlain (m ∷ []) = m ≢ 63
IsPlain (m ∷ n ∷ ms) = (m ≢ 63) × (m ≡ 42 → n ≢ 42) × IsPlain (n ∷ ms)

IsPlain-tail : (m : ℕ) (ms : List ℕ) → IsPlain (m ∷ ms) → (m ≢ 63) × IsPlain ms
IsPlain-tail m [] h = (h, tt)
IsPlain-tail m (n ∷ ms) h = (h.0, h.2)

false-true : false ≡ true → ⊥
false-true e = cc

-- A text without stars
abbrev pub HasNoStar : List ℕ → Type 0
HasNoStar text = All (λ t. t ≢ 42) text

module _ (m : ℕ) (ms : List ℕ) (star : (m == 42) ≡ true) where
  match_star_end : match (m ∷ ms) [] ≡ (if has_more ms then false else match ms [])
  unfolding match
  match_star_end = elim (Bool-cases (has_more ms)) [
    | inl more ↦ rw (match, star, more) refl
    | inr last ↦ rw (match, star, last) refl
  ]

  match_star :
      (t : ℕ) (ts : List ℕ)
      → t ≢ 42
      → match (m ∷ ms) (t ∷ ts) ≡ (match ms (t ∷ ts) || match (m ∷ ms) ts)
  unfolding match
  match_star t ts h =
      let other : (m == t) ≡ false = ground arith in
      let plain : (m == 63) ≡ false = ground arith in
      elim (Bool-cases (has_more ms)) [
        | inl more ↦ rw (match, star, other, plain, more) refl
        | inr last ↦ rw (match, star, other, plain, last) refl
      ]

module _ (m : ℕ) (ms : List ℕ) (char : (m == 42) ≡ false) (plain : m ≢ 63) where
  match_char_end : match (m ∷ ms) [] ≡ false
  unfolding match
  match_char_end =
      let no_mark = ==-ne m 63 plain in
      elim (Bool-cases (has_more ms)) [
        | inl more ↦ rw (match, char, no_mark, more) refl
        | inr last ↦ rw (match, char, no_mark, last) refl
      ]

  match_char :
      (t : ℕ) (ts : List ℕ) → match (m ∷ ms) (t ∷ ts) ≡ (if m == t then match ms ts else false)
  unfolding match
  match_char t ts =
      let no_mark = ==-ne m 63 plain in
      elim (Bool-cases (has_more ms)) [
        | inl more ↦ rw (match, char, no_mark, more) refl
        | inr last ↦ rw (match, char, no_mark, last) refl
      ]

Matches-star :
    (m : ℕ) (ms text : List ℕ)
    → (m == 42) ≡ true
    → Matches (m ∷ ms) text
    → (before : List ℕ) × (after : List ℕ) × (text ≡ before ++ after) × Matches ms after
Matches-star m ms text star h = rw star at h

star-Matches :
    (m : ℕ) (ms text before after : List ℕ)
    → (m == 42) ≡ true
    → text ≡ before ++ after
    → Matches ms after
    → Matches (m ∷ ms) text
star-Matches m ms text before after star e h = rw star (before, after, e, h)

or_cases : (a b : Bool) → (a || b) ≡ true → (a ≡ true) ⊎ (b ≡ true)
or_cases true b h = inl refl
or_cases false b h = inr h

if_true : (a b : Bool) → (if a then b else false) ≡ true → (a ≡ true) × (b ≡ true)
if_true true b h = (refl, h)
if_true false b h = cc

not_if : (a b : Bool) → (if a then false else b) ≡ true → b ≡ true
not_if true b h = cc
not_if false b h = h

match-Matches :
    (mask text : List ℕ)
    → IsPlain mask
    → HasNoStar text
    → match mask text ≡ true
    → Matches mask text
match-Matches [] [] h k e = refl
match-Matches [] (t ∷ ts) h k e = unfold match in cc
match-Matches (m ∷ ms) [] h k e =
    let (a, b) = IsPlain-tail m ms h in
    elim (Bool-cases (m == 42)) [
      | inl star ↦ star-Matches m ms [] [] [] star refl (
          match-Matches ms [] b tt
            (not_if (has_more ms) (match ms []) (sym (match_star_end m ms star) ∙ e)))
      | inr char ↦ absurd (false-true (sym (match_char_end m ms char a) ∙ e))
    ]
match-Matches (m ∷ ms) (t ∷ ts) h k e =
    let (a, b) = IsPlain-tail m ms h in
    elim (Bool-cases (m == 42)) [
      | inl star ↦
          elim (or_cases (match ms (t ∷ ts)) (match (m ∷ ms) ts)
            (sym (match_star m ms star t ts k.0) ∙ e)) [
              | inl skipped ↦
                  star-Matches m ms (t ∷ ts) [] (t ∷ ts) star refl
                    (match-Matches ms (t ∷ ts) b k skipped)
              | inr stayed ↦
                  let (before, after, p, q) =
                    Matches-star m ms ts star (match-Matches (m ∷ ms) ts h k.1 stayed) in
                  star-Matches m ms (t ∷ ts) (t ∷ before) after star (ap (λ (l : List ℕ). t ∷ l) p)
                    q
            ]
      | inr char ↦
          let (p, q) = if_true (m == t) (match ms ts) (sym (match_char m ms char a t ts) ∙ e) in
          let same : t ≡ m = sym ((==_iff m t).0 p) in
          rw char (ts, ap (λ (c : ℕ). c ∷ ts) same, match-Matches ms ts b k.1 q)
    ]

Matches-char :
    (m : ℕ) (ms text : List ℕ)
    → (m == 42) ≡ false
    → Matches (m ∷ ms) text
    → (after : List ℕ) × (text ≡ m ∷ after) × Matches ms after
Matches-char m ms text char h = rw char at h

-- A star at the end of the text is the last of the mask, if the mask is plain.
star_last : (m : ℕ) (ms : List ℕ) → m ≡ 42 → IsPlain (m ∷ ms) → Matches ms [] → has_more ms ≡ false
unfolding has_more
star_last m [] star h k = refl
star_last m (n ∷ ns) star h k =
    let (after, e, p) = Matches-char n ns [] (==-ne n 42 (h.1 star)) k in cc

or_right : (a b : Bool) → b ≡ true → (a || b) ≡ true
or_right true b h = refl
or_right false b h = h

nothing_left : (m : ℕ) (ms : List ℕ) → (m == 42) ≡ true → Matches (m ∷ ms) [] → Matches ms []
nothing_left m ms star e =
    let (before, after, p, q) = Matches-star m ms [] star e in
    let none_after : after ≡ [] = end_of before after p in rw none_after at q
  where
    end_of : (xs ys : List ℕ) → [] ≡ xs ++ ys → ys ≡ []
    end_of [] ys e = sym e
    end_of (x ∷ xs) ys e = cc

-- What a star takes: nothing, or the first character and what a star takes of the rest.
star_cases :
    (m : ℕ) (ms : List ℕ) (t : ℕ) (ts : List ℕ)
    → (m == 42) ≡ true
    → Matches (m ∷ ms) (t ∷ ts)
    → Matches ms (t ∷ ts) ⊎ Matches (m ∷ ms) ts
star_cases m ms t ts star e =
    let (before, after, p, q) = Matches-star m ms (t ∷ ts) star e in go before after p q
  where
    go :
        (before after : List ℕ)
        → t ∷ ts ≡ before ++ after
        → Matches ms after
        → Matches ms (t ∷ ts) ⊎ Matches (m ∷ ms) ts
    go [] after p q = inl (rw p q)
    go (x ∷ xs) after p q = inr (star-Matches m ms ts xs after star (cc) q)

Matches-match :
    (mask text : List ℕ)
    → IsPlain mask
    → HasNoStar text
    → Matches mask text
    → match mask text ≡ true
Matches-match [] [] h k e = unfold match in refl
Matches-match [] (t ∷ ts) h k e = cc
Matches-match (m ∷ ms) [] h k e =
    let (a, b) = IsPlain-tail m ms h in
    elim (Bool-cases (m == 42)) [
      | inl star ↦
          let p = nothing_left m ms star e in
          let last = star_last m ms ((==_iff m 42).0 star) h p in
          match_star_end m ms star ∙ rw last (Matches-match ms [] b tt p)
      | inr char ↦ let (after, p, q) = Matches-char m ms [] char e in cc
    ]
Matches-match (m ∷ ms) (t ∷ ts) h k e =
    let (a, b) = IsPlain-tail m ms h in
    elim (Bool-cases (m == 42)) [
      | inl star ↦ match_star m ms star t ts k.0 ∙ (elim (star_cases m ms t ts star e) [
        | inl skipped ↦ rw (Matches-match ms (t ∷ ts) b k skipped) refl
        | inr stayed ↦ or_right (match ms (t ∷ ts)) _ (Matches-match (m ∷ ms) ts h k.1 stayed)
      ])
      | inr char ↦
          let (after, p, q) = Matches-char m ms (t ∷ ts) char e in
          let same : t ≡ m = cc in
          let rest : ts ≡ after = cc in
          let found : Matches ms ts = rw rest q in
          match_char m ms char a t ts ∙ rw (same, ==-refl m) (Matches-match ms ts b k.1 found)
    ]

-- On a mask without question marks and without two stars in a row, and a text without stars,
-- `match` decides whether the text is what the mask means.
pub match_lem :
    (mask text : List ℕ)
    → IsPlain mask
    → HasNoStar text
    → (match mask text ≡ true) ↔ Matches mask text
match_lem mask text h k = (match-Matches mask text h k, Matches-match mask text h k)
