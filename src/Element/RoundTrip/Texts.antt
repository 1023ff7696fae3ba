-- ===== src/Element/RoundTrip/Texts.antt =====
-- NUL-terminated strings of protocol/element3.py.
use pg_cluster.Base.{
  ==-ne, Avoids, Bytes, [], break_at, refl, some, split_max, split_max-append, suc, zero, ℕ, ◌++◌,
  ◌∷◌, ◌≡◌, ◌≢◌,
}
use pg_cluster.Element.Fields.{chop_nul, rstrip_nul}

pub chop_nul-append : (x : Bytes) → chop_nul (x ++ 0 ∷ []) ≡ some x
unfolding chop_nul
chop_nul-append [] = refl
chop_nul-append (a ∷ []) = refl
chop_nul-append (a ∷ b ∷ x) = rw (chop_nul-append (b ∷ x))

-- The string does not end with a NUL.
abbrev pub NoTrailingNul : Bytes → Type 0
NoTrailingNul [] = Unit
NoTrailingNul (x ∷ []) = x ≢ 0
NoTrailingNul (x ∷ y ∷ xs) = NoTrailingNul (y ∷ xs)

rstrip_nul-cons :
    (x y : ℕ) (ys xs : Bytes) → rstrip_nul xs ≡ y ∷ ys → rstrip_nul (x ∷ xs) ≡ x ∷ y ∷ ys
unfolding rstrip_nul
rstrip_nul-cons x y ys xs e = rw e

pub rstrip_nul-append : (x : Bytes) → NoTrailingNul x → rstrip_nul (x ++ 0 ∷ []) ≡ x
unfolding rstrip_nul
rstrip_nul-append [] h = refl
rstrip_nul-append (a ∷ []) h = rw (==-ne a 0 h)
rstrip_nul-append (a ∷ b ∷ x) h =
    rstrip_nul-cons a b x ((b ∷ x) ++ 0 ∷ []) (rstrip_nul-append (b ∷ x) h)

pub split_max-last :
    (n : ℕ) (x : Bytes) → Avoids 0 x → split_max 0 (suc n) (x ++ 0 ∷ []) ≡ x ∷ split_max 0 n []
split_max-last n x h = split_max-append 0 n x [] h

pub split_max-nil : (n : ℕ) → split_max 0 n [] ≡ [] ∷ []
unfolding split_max break_at
split_max-nil zero = refl
split_max-nil (suc n) = refl

-- Two NUL-terminated strings, as Notify and ShowOption split them.
pub split_two :
    (a b : Bytes)
    → Avoids 0 a
    → Avoids 0 b
    → split_max 0 2 (a ++ 0 ∷ (b ++ 0 ∷ [])) ≡ a ∷ b ∷ [] ∷ []
split_two a b ha hb =
    rw (split_max-append 0 1 a (b ++ 0 ∷ []) ha, split_max-append 0 0 b [] hb, split_max-nil 0)

-- Two NUL-terminated strings before the rest of a message.
pub split_two_rest :
    (a b rest : Bytes)
    → Avoids 0 a
    → Avoids 0 b
    → split_max 0 2 (a ++ 0 ∷ (b ++ 0 ∷ rest)) ≡ a ∷ b ∷ rest ∷ []
unfolding split_max
split_two_rest a b rest ha hb =
    rw (split_max-append 0 1 a (b ++ 0 ∷ rest) ha, split_max-append 0 0 b rest hb)

pub split_one_rest : (a rest : Bytes) → Avoids 0 a → split_max 0 1 (a ++ 0 ∷ rest) ≡ a ∷ rest ∷ []
unfolding split_max
split_one_rest a rest ha = split_max-append 0 0 a rest ha
