-- ===== src/Text/Split.antt =====
-- Split and Join undo one another.
use kubernetes_programming.Prelude.{
  Bytes, List, [], ◌∷◌, ◌++◌, ℕ, ◌≡◌, ◌≢◌, refl, arith, inl, inr, ◌==◌, Bool-cases,
}
use kubernetes_programming.Text.{split, join, grow}

-- No byte of the text is the separator.
abbrev pub Lacks : ℕ → Bytes → Type 0
Lacks sep [] = Unit
Lacks sep (c ∷ s) = (c ≢ sep) × Lacks sep s

abbrev pub AllLack : ℕ → List Bytes → Type 0
AllLack sep [] = Unit
AllLack sep (p ∷ ps) = Lacks sep p × AllLack sep ps

grow-ne-nil : (c : ℕ) (ps : List Bytes) → grow c ps ≢ []
grow-ne-nil c [] h = cc
grow-ne-nil c (p ∷ ps) h = cc

pub split-ne-nil : (s : Bytes) (sep : ℕ) → split s sep ≢ []
unfolding split
split-ne-nil [] sep h = cc
split-ne-nil (c ∷ s) sep h = ground (arith, grow-ne-nil c (split s sep))

join-cons :
    (p : Bytes) (ps : List Bytes) (sep : ℕ) → ps ≢ [] → join (p ∷ ps) sep ≡ p ++ sep ∷ join ps sep
unfolding join
join-cons p [] sep h = absurd (h refl)
join-cons p (q ∷ ps) sep h = refl

join-grow : (c : ℕ) (ps : List Bytes) (sep : ℕ) → ps ≢ [] → join (grow c ps) sep ≡ c ∷ join ps sep
unfolding join
join-grow c [] sep h = absurd (h refl)
join-grow c (p ∷ []) sep h = refl
join-grow c (p ∷ q ∷ ps) sep h = refl

-- Joining the parts of a split gives the text back.
pub join-split : (s : Bytes) (sep : ℕ) → join (split s sep) sep ≡ s
unfolding split
join-split [] sep = unfold join in refl
join-split (c ∷ s) sep = ground (
  arith,
  join-split s sep,
  join-cons [] (split s sep) sep (split-ne-nil s sep),
  join-grow c (split s sep) sep (split-ne-nil s sep),
)

grow-Lacks :
    (c : ℕ) (ps : List Bytes) (sep : ℕ) → c ≢ sep → AllLack sep ps → AllLack sep (grow c ps)
grow-Lacks c [] sep n h = ((n, tt), tt)
grow-Lacks c (p ∷ ps) sep n (hp, hps) = ((n, hp), hps)

-- No part of a split holds the separator.
pub split-AllLack : (s : Bytes) (sep : ℕ) → AllLack sep (split s sep)
unfolding split
split-AllLack [] sep = (tt, tt)
split-AllLack (c ∷ s) sep = elim (Bool-cases (c == sep)) [
  | inl e ↦ rw e (tt, split-AllLack s sep)
  | inr e ↦ rw e (grow-Lacks c (split s sep) sep (ground arith) (split-AllLack s sep))
]
