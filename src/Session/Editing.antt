-- ===== src/Session/Editing.antt =====
-- packages/session/src/tools-edit.ts: the replacement of a string in a file, with the language's
-- `split`, `join` and `replace` of strings as far as the editor uses them: the string that is looked
-- for is not empty.
pub mod Replace
pub mod File
pub mod Restore
pub mod Workspaces
pub mod Tests
use open_source_harness.Common.{
  ℕ, zero, suc, ◌-◌, ◌==◌, Bool, true, false, Option, none, some, List, [], ◌∷◌, ◌++◌, Str, codes,
  str_eq, starts_with, join, length, drop, ltb, if◌then◌else◌,
}

-- `c` in front of the first piece
abbrev pub push_code : ℕ → List Str → List Str
push_code c [] = (c ∷ []) ∷ []
push_code c (p ∷ ps) = (c ∷ p) ∷ ps

-- The pieces of `s` between the matches of `needle`; `skip` code units of a match are still to come.
unfoldable pub pieces : Str → ℕ → Str → List Str
pieces needle skip [] = [] ∷ []
pieces needle (suc skip) (c ∷ s) = pieces needle skip s
pieces needle zero (c ∷ s) = elim (starts_with (c ∷ s) needle) [
  | true ↦ [] ∷ pieces needle (length needle - 1) s
  | false ↦ push_code c (pieces needle 0 s)
]

-- `s.split(needle)`
unfoldable pub split : Str → Str → List Str
unfolding pieces
split needle s = pieces needle 0 s

unfoldable pub count_occurrences : Str → Str → ℕ
unfolding split
count_occurrences haystack [] = 0
count_occurrences haystack (c ∷ needle) = length (split (c ∷ needle) haystack) - 1

-- What `$` and the code unit behind it stand for, where the pattern is a string: `$$`, `$&`, `` $` ``
-- and `$'`. Any other pair stands for itself.
abbrev pub dollar_pair : Str → Str → Str → ℕ → Str
dollar_pair before matched after c =
    if c == b'$'
    then codes "$"
    else if c == b'&'
    then matched
    else if c == b'`'
    then before
    else if c == b'\''
    then after
    else b'$' ∷ c ∷ []

-- the replacement text; `pending` says that a `$` has just been read
unfoldable pub expand : Str → Str → Str → Bool → Str → Str
expand before matched after false [] = []
expand before matched after true [] = codes "$"
expand before matched after false (c ∷ s) =
    let rest = expand before matched after (c == b'$') s in if c == b'$' then rest else c ∷ rest
expand before matched after true (c ∷ s) =
    dollar_pair before matched after c ++ expand before matched after false s

-- `s.replace(needle, replacement)`: the first match only; `before` is what was passed
unfoldable pub replace_from : Str → Str → Str → Str → Str
unfolding expand
replace_from needle replacement before [] = []
replace_from needle replacement before (c ∷ s) = elim (starts_with (c ∷ s) needle) [
  | true ↦
      let after = drop (length needle) (c ∷ s) in
      expand before needle after false replacement ++ after
  | false ↦ c ∷ replace_from needle replacement (before ++ c ∷ []) s
]

unfoldable pub replace_first : Str → Str → Str → Str
unfolding replace_from
replace_first needle replacement s = replace_from needle replacement [] s

-- `before.split(oldString).join(newString)`
unfoldable pub replace_every : Str → Str → Str → Str
unfolding split
replace_every needle replacement s = join replacement (split needle s)

pub data Edit : Type 0 where
  identical not_found : Edit
  ambiguous : ℕ → Edit
  edited : Str → ℕ → Edit

-- From the check that the two strings differ to the new contents, with the number of replacements.
unfoldable pub edit_text : Str → Str → Bool → Str → Edit
unfolding count_occurrences replace_first replace_every
edit_text old_string new_string replace_all before =
    let occurrences = count_occurrences before old_string in
    if str_eq old_string new_string
    then identical
    else if occurrences == 0
    then not_found
    else elim replace_all [
      | true ↦ edited (replace_every old_string new_string before) occurrences
      | false ↦
          if ltb 1 occurrences
          then ambiguous occurrences
          else edited (replace_first old_string new_string before) 1
    ]
