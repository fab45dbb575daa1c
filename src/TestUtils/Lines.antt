-- ===== src/TestUtils/Lines.antt =====
-- GetNonEmptyLines keeps the parts that hold something.
use kubernetes_programming.Prelude.{
  Bytes, List, [], ◌∷◌, ◌++◌, append_assoc, append-nil, ◌≡◌, ◌≢◌, ◌∙◌, sym, str_eq,
}
use kubernetes_programming.Text.{split}
use kubernetes_programming.Text.Split.{AllLack, split-AllLack}
use kubernetes_programming.TestUtils.{keep_non_empty, get_non_empty_lines}

-- The parts of a list that are not empty, in order.
pub non_empty : List Bytes → List Bytes
non_empty [] = []
non_empty ([] ∷ es) = non_empty es
non_empty ((c ∷ e) ∷ es) = (c ∷ e) ∷ non_empty es

abbrev pub AllFilled : List Bytes → Type 0
AllFilled [] = Unit
AllFilled (e ∷ es) = (e ≢ []) × AllFilled es

keep-non_empty : (es res : List Bytes) → keep_non_empty es res ≡ res ++ non_empty es
unfolding keep_non_empty non_empty str_eq
keep-non_empty [] res = sym (append-nil res)
keep-non_empty ([] ∷ es) res = keep-non_empty es res
keep-non_empty ((c ∷ e) ∷ es) res = keep-non_empty es _ ∙ append_assoc res _ _

non_empty-AllFilled : (es : List Bytes) → AllFilled (non_empty es)
unfolding non_empty
non_empty-AllFilled [] = tt
non_empty-AllFilled ([] ∷ es) = non_empty-AllFilled es
non_empty-AllFilled ((c ∷ e) ∷ es) = (λ h. cc, non_empty-AllFilled es)

non_empty-AllLack : (es : List Bytes) → AllLack b'\n' es → AllLack b'\n' (non_empty es)
unfolding non_empty
non_empty-AllLack [] h = tt
non_empty-AllLack ([] ∷ es) (_, h) = non_empty-AllLack es h
non_empty-AllLack ((c ∷ e) ∷ es) (h, hs) = (h, non_empty-AllLack es hs)

-- The lines returned are the parts between line breaks that are not empty, in order; so none of them
-- is empty and none holds a line break.
lines_filled :
    (output : Bytes)
    → (get_non_empty_lines output ≡ non_empty (split output b'\n'))
      × AllFilled (get_non_empty_lines output)
      × AllLack b'\n' (get_non_empty_lines output)
unfolding get_non_empty_lines
lines_filled output =
    let e = keep-non_empty (split output b'\n') [] in
    (e, rw e (non_empty-AllFilled _), rw e (non_empty-AllLack _ (split-AllLack output b'\n')))
