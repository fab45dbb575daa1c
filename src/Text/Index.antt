-- ===== src/Text/Index.antt =====
-- What Index finds.
use kubernetes_programming.Prelude.{
  Bytes, ℕ, zero, suc, [], ◌∷◌, ◌++◌, take, drop, length, Option, none, some, ◌≡◌, refl, arith, ap,
  subst, sym, ◌⊎◌, true, false, Bool-cases, inl, inr,
}
use kubernetes_programming.Text.{has_prefix, index, bump}

has_prefix-append : (s t : Bytes) → has_prefix s t ≡ true → s ≡ t ++ drop (length t) s
unfolding has_prefix
has_prefix-append s [] h = refl
has_prefix-append [] (_ ∷ _) h = cc
has_prefix-append (c ∷ s) (d ∷ t) h = ground (arith, has_prefix-append s t)

bump-some : (o : Option ℕ) (i : ℕ) → bump o ≡ some i → (j : ℕ) × (o ≡ some j) × (i ≡ suc j)
bump-some none i h = cc
bump-some (some j) i h = (j, refl, cc)

index-cons :
    (c : ℕ) (s t : Bytes) (i : ℕ)
    → index (c ∷ s) t ≡ some i
    → ((has_prefix (c ∷ s) t ≡ true) × (i ≡ 0))
      ⊎ ((j : ℕ) × (index s t ≡ some j) × (i ≡ suc j) × (has_prefix (c ∷ s) t ≡ false))
unfolding index
index-cons c s t i h = elim (Bool-cases (has_prefix (c ∷ s) t)) [
  | inl e ↦ inl (e, ground arith)
  | inr e ↦ inr (let (j, a, b) = bump-some (index s t) i (rw e at h) in (j, a, b, e))
]

abbrev Splits : Bytes → Bytes → ℕ → Type 0
Splits s t i = s ≡ take i s ++ (t ++ drop (length t) (drop i s))

-- The text is what stands before the first occurrence, the occurrence, and what stands behind it.
pub index-Splits : (s t : Bytes) (i : ℕ) → index s t ≡ some i → Splits s t i
index-Splits [] [] zero h = refl
index-Splits [] [] (suc i) h = unfold index has_prefix in cc
index-Splits [] (d ∷ t) i h = unfold index has_prefix in cc
index-Splits (c ∷ s) t i h = at_cons c s t i (index-cons c s t i h) (index-Splits s t)
  where
    at_cons :
        (c : ℕ) (s t : Bytes) (i : ℕ)
        → ((has_prefix (c ∷ s) t ≡ true) × (i ≡ 0))
          ⊎ ((j : ℕ) × (index s t ≡ some j) × (i ≡ suc j) × (has_prefix (c ∷ s) t ≡ false))
        → ((j : ℕ) → index s t ≡ some j → Splits s t j)
        → Splits (c ∷ s) t i
    at_cons c s t i (inl (e, z)) ih =
        subst (Splits (c ∷ s) t) (sym z) (has_prefix-append (c ∷ s) t e)
    at_cons c s t i (inr (j, e, z, _)) ih =
        subst (Splits (c ∷ s) t) (sym z) (ap (λ x. c ∷ x) (ih j e))

-- The text begins with `t` at none of so many positions, from the first on.
abbrev pub NoneBefore : ℕ → Bytes → Bytes → Type 0
NoneBefore zero s t = Unit
NoneBefore (suc i) s t = (has_prefix s t ≡ false) × NoneBefore i (drop 1 s) t

-- There is no occurrence in front of the one that Index finds.
pub index-NoneBefore :
    (s t : Bytes) (i : ℕ) → index s t ≡ some i → NoneBefore (length (take i s)) s t
index-NoneBefore [] t zero h = tt
index-NoneBefore [] t (suc i) h = tt
index-NoneBefore (c ∷ s) t i h = elim (index-cons c s t i h) [
  | inl (_, z) ↦ subst (λ i. NoneBefore (length (take i (c ∷ s))) (c ∷ s) t) (sym z) tt
  | inr (j, e, z, none_here) ↦
      subst (λ i. NoneBefore (length (take i (c ∷ s))) (c ∷ s) t) (sym z)
        (none_here, index-NoneBefore s t j e)
]
