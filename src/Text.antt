-- ===== src/Text.antt =====
-- What the program uses of Go's `strings` and `bufio`, on byte lists: Split and Join on one byte,
-- HasPrefix, TrimPrefix, Index, Contains, Replace with n = -1, and the lines of a Scanner.
pub mod Split
pub mod Index
use kubernetes_programming.Prelude.{
  Bytes, Bool, true, false, List, [], ◌∷◌, ◌++◌, Option, none, some, ℕ, suc, ◌+◌, ◌==◌, ◌&&◌,
  if◌then◌else◌, drop, length, leb,
}

-- Put a byte in front of the first part.
abbrev pub grow : ℕ → List Bytes → List Bytes
grow c [] = (c ∷ []) ∷ []
grow c (p ∷ ps) = (c ∷ p) ∷ ps

-- strings.Split(s, sep) for a separator of one byte: always at least one part.
unfoldable pub split : Bytes → ℕ → List Bytes
split [] sep = [] ∷ []
split (c ∷ s) sep = let rest = split s sep in if c == sep then [] ∷ rest else grow c rest

-- strings.Join(parts, sep) for a separator of one byte.
unfoldable pub join : List Bytes → ℕ → Bytes
join [] sep = []
join (p ∷ []) sep = p
join (p ∷ q ∷ ps) sep = p ++ sep ∷ join (q ∷ ps) sep

unfoldable pub has_prefix : Bytes → Bytes → Bool
has_prefix s [] = true
has_prefix [] (_ ∷ _) = false
has_prefix (c ∷ s) (d ∷ p) = (c == d) && has_prefix s p

-- strings.TrimPrefix.
unfoldable pub trim_prefix : Bytes → Bytes → Bytes
unfolding has_prefix
trim_prefix s p = if has_prefix s p then drop (length p) s else s

-- strings.Index: the first position of `t`, or `none` for -1.
abbrev pub bump : Option ℕ → Option ℕ
bump none = none
bump (some i) = some (suc i)

unfoldable pub index : Bytes → Bytes → Option ℕ
unfolding has_prefix
index [] t = if has_prefix [] t then some 0 else none
index (c ∷ s) t = let rest = bump (index s t) in if has_prefix (c ∷ s) t then some 0 else rest

unfoldable pub contains : Bytes → Bytes → Bool
unfolding index
contains s t = elim (index s t) [ none ↦ false | some _ ↦ true ]

-- The lines that a bufio.Scanner returns: ended by a line break, or by the end of a text that does not
-- end in one; without a carriage return at the end; and up to the first line that is too long for the
-- scanner's buffer of 64 KiB.
abbrev pub max_line : ℕ
max_line = 65_535

drop_cr : Bytes → Bytes
drop_cr [] = []
drop_cr (c ∷ []) = if c == b'\r' then [] else c ∷ []
drop_cr (c ∷ d ∷ s) = c ∷ drop_cr (d ∷ s)

drop_last_empty : List Bytes → List Bytes
drop_last_empty [] = []
drop_last_empty ([] ∷ []) = []
drop_last_empty ((c ∷ p) ∷ []) = (c ∷ p) ∷ []
drop_last_empty (p ∷ q ∷ ps) = p ∷ drop_last_empty (q ∷ ps)

readable : List Bytes → List Bytes
readable [] = []
readable (p ∷ ps) =
    let rest = readable ps in if leb (length p) max_line then drop_cr p ∷ rest else []

unfoldable pub scan_lines : Bytes → List Bytes
unfolding readable drop_last_empty drop_cr
scan_lines s = readable (drop_last_empty (split s b'\n'))
