-- ===== src/TestUtils/Uncomment.antt =====
-- UncommentCode.
use kubernetes_programming.Prelude.{
  Bytes, ℕ, List, [], ◌∷◌, ◌++◌, append_assoc, Option, none, some, ◌≡◌, refl, ◌∙◌, ap, take, drop,
  length, map,
}
use kubernetes_programming.Text.{index, trim_prefix, scan_lines, join}
use kubernetes_programming.Text.Index.{index-Splits, NoneBefore, index-NoneBefore}

-- os.ReadFile and os.WriteFile. Writing to the buffer does not fail.
pub record Files (W : Type 0) : Type 0 where
  pub read : Bytes → W → Option Bytes
  pub write : Bytes → Bytes → W → Option Bytes × W

-- What UncommentCode returns.
pub data UncommentError : Type 0 where
  unreadable : UncommentError
  no_target : UncommentError
  unwritable : Bytes → UncommentError

-- The loop over the scanner, from its second call of Scan: the lines without the prefix, a line break
-- before each.
more_lines : List Bytes → Bytes → Bytes → Bytes
more_lines [] prefix out = out
more_lines (line ∷ lines) prefix out =
    more_lines lines prefix (out ++ b'\n' ∷ [] ++ trim_prefix line prefix)

-- The output buffer at the end of the loop; `none` if the first Scan fails.
unfoldable pub uncommented : List Bytes → Bytes → Bytes → Option Bytes
unfolding more_lines
uncommented [] prefix out = none
uncommented (line ∷ lines) prefix out =
    some (more_lines lines prefix (out ++ trim_prefix line prefix))

module _ {W : Type 0} (files : Files W) where
  pub write_back : Bytes → Option Bytes × W → Option UncommentError × W
  write_back name (none, w) = (none, w)
  write_back name (some e, w) = (some (unwritable e), w)

  finish : Bytes → Bytes → Option Bytes → W → Option UncommentError × W
  unfolding write_back
  finish name rest none w = (none, w)
  finish name rest (some out) w = write_back name (files.write name (out ++ rest) w)

  replace_at : Bytes → Bytes → Bytes → Bytes → Option ℕ → W → Option UncommentError × W
  unfolding finish
  replace_at name content target prefix none w = (some no_target, w)
  replace_at name content target prefix (some idx) w =
      finish name (drop (length target) (drop idx content))
        (uncommented (scan_lines target) prefix (take idx content)) w

  in_content : Bytes → Bytes → Bytes → Option Bytes → W → Option UncommentError × W
  unfolding replace_at
  in_content name target prefix none w = (some unreadable, w)
  in_content name target prefix (some content) w =
      replace_at name content target prefix (index content target) w

  unfoldable pub uncomment_code : Bytes → Bytes → Bytes → W → Option UncommentError × W
  unfolding in_content
  uncomment_code name target prefix w = in_content name target prefix (files.read name w) w

-- The prefix taken off each line, the lines joined by line breaks.
pub without_prefix : Bytes → List Bytes → Bytes
without_prefix prefix lines = join (map (λ line. trim_prefix line prefix) lines) b'\n'

more_lines-join :
    (lines : List Bytes) (line prefix out : Bytes)
    → more_lines lines prefix (out ++ trim_prefix line prefix)
      ≡ out ++ without_prefix prefix (line ∷ lines)
unfolding more_lines without_prefix join
more_lines-join [] line prefix out = refl
more_lines-join (next ∷ lines) line prefix out =
    more_lines-join lines next prefix (out ++ trim_prefix line prefix ++ b'\n' ∷ [])
    ∙ append_assoc (out ++ trim_prefix line prefix) (b'\n' ∷ [])
        (without_prefix prefix (next ∷ lines))
    ∙ append_assoc out (trim_prefix line prefix) (b'\n' ∷ without_prefix prefix (next ∷ lines))

uncommented-join :
    (line : Bytes) (lines : List Bytes) (prefix out : Bytes)
    → uncommented (line ∷ lines) prefix out ≡ some (out ++ without_prefix prefix (line ∷ lines))
unfolding uncommented
uncommented-join line lines prefix out = ap some (more_lines-join lines line prefix out)

module _ {W : Type 0} (files : Files W) where
  -- When the file is read, the target is found in it and the scanner has a first line, UncommentCode
  -- writes the file once: what stood before the first occurrence of the target, at no position of which
  -- the target begins, the lines of the target without the prefix, and what stood behind that
  -- occurrence. It fails only if the write fails.
  pub uncomments :
      (name target prefix content line : Bytes) (lines : List Bytes) (i : ℕ) (w : W)
      → files.read name w ≡ some content
      → index content target ≡ some i
      → scan_lines target ≡ line ∷ lines
      → (before after : Bytes) × (content ≡ before ++ (target ++ after))
        × NoneBefore (length before) content target
        × (uncomment_code files name target prefix w
            ≡ write_back files name
                (files.write name (before ++ without_prefix prefix (line ∷ lines) ++ after) w))
  unfolding uncomment_code in_content replace_at finish
  uncomments name target prefix content line lines i w r h s = (
    take i content,
    drop (length target) (drop i content),
    index-Splits content target i h,
    index-NoneBefore content target i h,
    rw (r, in_content, h, replace_at, s, uncommented-join, finish),
  )

  -- In every other case nothing is written: the error says whether the file could not be read or the
  -- target was not found, and there is no error if the scanner has no line.
  pub uncomment_refuses :
      (name target prefix content : Bytes) (i : ℕ) (w : W)
      → (files.read name w ≡ none
          → uncomment_code files name target prefix w ≡ (some unreadable, w))
        × (files.read name w ≡ some content
            → index content target ≡ none
            → uncomment_code files name target prefix w ≡ (some no_target, w))
        × (files.read name w ≡ some content
            → index content target ≡ some i
            → scan_lines target ≡ []
            → uncomment_code files name target prefix w ≡ (none, w))
  unfolding uncomment_code in_content replace_at finish uncommented
  uncomment_refuses name target prefix content i w = (
    λ r. rw (r, in_content),
    λ r h. rw (r, in_content, h, replace_at),
    λ r h s. rw (r, in_content, h, replace_at, s, uncommented, finish),
  )
