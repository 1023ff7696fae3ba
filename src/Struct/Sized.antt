-- ===== src/Struct/Sized.antt =====
-- `split_sized_data` of python/structlib.py on any data, well formed or not.
use pg_cluster.Base.{
  Bool-cases, Bytes, Option, Outcome-cases, [], arith, drop, inl, inr, length, length-drop, ltb,
  suc, take, zero, ℕ, ◌==◌, ◌∷◌, ◌≤◌,
}
use pg_cluster.Struct.{
  Generator, finished, raises, sized_field, sized_round, split_sized_data, split_sized_loop, stuck,
  ulong_unpack, yields,
}

-- The generator ends, by itself or by an exception.
abbrev pub Ends {ℓ} : {A : Type ℓ} → Generator A → Type 0
Ends finished = Unit
Ends (raises e) = Unit
Ends stuck = ⊥
Ends (yields a g) = Ends g

sized_field-Ends :
    (go : Bytes → Generator (Option Bytes)) (l n : ℕ) (rest : Bytes)
    → length rest ≤ n
    → ((w : Bytes) → length w ≤ n → Ends (go w))
    → Ends (sized_field go l rest)
unfolding sized_field
sized_field-Ends go l n rest h ends = elim (Bool-cases (l == 4294967295)) [
  | inl null ↦ rw null (ends rest h)
  | inr sized ↦ rw sized (elim (Bool-cases (ltb (length (take l rest)) l)) [
    | inl short ↦ rw short tt
    | inr enough ↦ rw enough (ends (drop l rest) (omega (arith, length-drop l rest)))
  ])
]

split_sized_loop-Ends : (fuel : ℕ) (v : Bytes) → length v ≤ fuel → Ends (split_sized_loop fuel v)
unfolding split_sized_loop sized_round
split_sized_loop-Ends fuel [] h = tt
split_sized_loop-Ends zero (b ∷ v) h = absurd (omega arith)
split_sized_loop-Ends (suc fuel) (b ∷ v) h = elim (Outcome-cases (ulong_unpack (b ∷ v))) [
  | inr (e, short) ↦ rw (short, Ends) tt
  | inl (l, read) ↦
      rw (read, Ends)
        (sized_field-Ends (λ w. split_sized_loop fuel w) l fuel (drop 4 (b ∷ v))
          (omega (arith, length-drop 4 (b ∷ v))) (λ w. split_sized_loop-Ends fuel w))
]

-- `split_sized_data` ends on every input: its loop never runs out of fuel.
pub split_sized_data-Ends : (data' : Bytes) → Ends (split_sized_data data')
unfolding split_sized_data
split_sized_data-Ends data' = split_sized_loop-Ends (length data') data' (omega arith)
