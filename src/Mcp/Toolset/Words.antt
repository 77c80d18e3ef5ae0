-- ===== src/Mcp/Toolset/Words.antt =====
-- packages/mcp/src/toolset.ts, search: the words of a query.
use mathlib.Core.Path.{subst}
use open_source_harness.Common.{
  ℕ, ap, ◌≡◌, ◌≢◌, refl, inl, inr, true, false, List, [], ◌∷◌, ◌++◌, Str, is_space, All, All-append,
  append_assoc, Bool-cases,
}
use open_source_harness.Mcp.Toolset.{close_word, split_words}

abbrev pub Gap : Str → Type 0
Gap s = All (λ c. is_space c ≡ true) s

abbrev pub Marks : Str → Type 0
Marks s = All (λ c. is_space c ≡ false) s

-- Nothing is left, or a white space comes next.
abbrev pub IsBroken : Str → Type 0
IsBroken [] = Unit
IsBroken (c ∷ s) = is_space c ≡ true

-- The words of a text, in their order: the longest stretches without white space.
pub data Words : Str → List Str → Type 0 where
  no_words : {s : Str} → Gap s → Words s []
  word_then :
      {s : Str} {words : List Str} (gap word rest : Str)
      → Gap gap
      → word ≢ []
      → Marks word
      → IsBroken rest
      → s ≡ gap ++ (word ++ rest)
      → Words rest words
      → Words s (word ∷ words)

Words-space :
    (c : ℕ) (s : Str) (words : List Str) → is_space c ≡ true → Words s words → Words (c ∷ s) words
Words-space c s words h (no_words g) = no_words (h, g)
Words-space c s words h (word_then gap word rest g n m b e w) =
    word_then (c ∷ gap) word rest (h, g) n m b (ap (◌∷◌ c) e) w

closes :
    (word : Str) (c : ℕ) (s : Str) (words : List Str)
    → Marks word
    → is_space c ≡ true
    → Words (c ∷ s) words
    → Words (word ++ (c ∷ s)) (close_word word words)
closes [] c s words m space w = w
closes (d ∷ word) c s words m space w = word_then [] (d ∷ word) (c ∷ s) tt (λ e. cc) m space refl w

split_from : (word s : Str) → Marks word → Words (word ++ s) (split_words word s)
unfolding split_words
split_from [] [] m = no_words tt
split_from (d ∷ word) [] m = word_then [] (d ∷ word) [] tt (λ e. cc) m tt refl (no_words tt)
split_from word (c ∷ s) m = elim (Bool-cases (is_space c)) [
  | inl space ↦
      rw (split_words, space)
        (closes word c s (split_words [] s) m space
          (Words-space c s (split_words [] s) space (split_from [] s tt)))
  | inr mark ↦
      rw (split_words, mark)
        (subst (λ t. Words t (split_words (word ++ c ∷ []) s)) (append_assoc word (c ∷ []) s)
          (split_from (word ++ c ∷ []) s
            (All-append (λ c. is_space c ≡ false) word (c ∷ []) m (mark, tt))))
]

pub split_words-Words : (s : Str) → Words s (split_words [] s)
split_words-Words s = split_from [] s tt
