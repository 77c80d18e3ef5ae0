-- ===== src/Session/Editing/Tests.antt =====
-- packages/session/src/tools-edit.ts: edits of a short text, the `$` patterns of the replacement, and
-- an instance of the theorem.
use open_source_harness.Common.{
  ℕ, ◌≡◌, ◌≤◌, ◌⊎◌, refl, true, false, [], ◌∷◌, codes, str_eq, starts_with, includes, join,
}
use open_source_harness.Session.Editing.{
  pieces, split, count_occurrences, expand, replace_first, replace_every, identical, not_found,
  ambiguous, edited, edit_text,
}
use open_source_harness.Session.Editing.Replace.{edit_text-replaces}

sealed : Unit {0}
unfolding edit_text pieces expand starts_with str_eq includes join
sealed = tt

verdicts :
    (split (codes "aa") (codes "aaaba") ≡ [] ∷ codes "aba" ∷ [])
    × (edit_text (codes "b") (codes "c") false (codes "abab") ≡ ambiguous 2)
    × (edit_text (codes "b") (codes "c") true (codes "abab") ≡ edited (codes "acac") 2)
    × (edit_text (codes "x") (codes "c") true (codes "abab") ≡ not_found)
    × (edit_text (codes "x") (codes "x") true (codes "abab") ≡ identical)
unfolding sealed
verdicts = (refl, refl, refl, refl, refl)

-- The new text `$$` is written as `$` by a single replacement and as it is by a replacement of all.
dollars_differ :
    (replace_first (codes "cost") (codes "$$") (codes "the cost is") ≡ codes "the $ is")
    × (replace_every (codes "cost") (codes "$$") (codes "the cost is") ≡ codes "the $$ is")
    × (replace_first (codes "cost") (codes "[$&]") (codes "the cost is") ≡ codes "the [cost] is")
unfolding sealed
dollars_differ = (refl, refl, refl)

edit_text-replaces_example :
    (codes "acac" ≡ replace_every (codes "b") (codes "c") (codes "abab"))
    × (2 ≡ count_occurrences (codes "abab") (codes "b"))
    × (1 ≤ 2)
    × (str_eq (codes "b") (codes "c") ≡ false)
    × ((true ≡ true) ⊎ ◌≡◌ {A = ℕ} 2 1)
unfolding sealed
edit_text-replaces_example =
    edit_text-replaces (codes "b") (codes "c") true (codes "abab") (codes "acac") 2 refl refl
