-- ===== src/Mcp/Toolset/Terms.antt =====
-- packages/mcp/src/toolset.ts, search: what the score of a text counts.
use mathlib.Core.Path.{subst}
use open_source_harness.Common.{
  ℕ, suc, ◌<◌, ◌≡◌, refl, sym, ap, ◌∙◌, inl, inr, true, List, [], ◌∷◌, ◌++◌, Str, In, here, there,
  starts_with, Bool-cases, arith,
}
use open_source_harness.Common.Affix.{prefix_rest, starts_with-append}
use open_source_harness.Mcp.Toolset.{has_text, score_terms}

-- The term stands somewhere in the text.
pub record Contains (s term : Str) : Type 0 where
  pub before : Str
  pub after : Str
  pub split : s ≡ before ++ (term ++ after)

has_text-Contains : (s term : Str) → has_text s term ≡ true → Contains s term
unfolding has_text
has_text-Contains [] term h =
    let (after, e) = prefix_rest [] term h in record { before = []; after = after; split = e }
has_text-Contains (c ∷ s) term h = elim (Bool-cases (starts_with (c ∷ s) term)) [
  | inl at_start ↦
      let (after, e) = prefix_rest (c ∷ s) term at_start in
      record { before = []; after = after; split = e }
  | inr later ↦
      let more = has_text-Contains s term (rw (has_text, later) at h) in
      record { before = c ∷ more.before; after = more.after; split = ap (◌∷◌ c) more.split }
]

has_text_at : (before term after : Str) → has_text (before ++ (term ++ after)) term ≡ true
unfolding has_text
has_text_at [] term after = at_start (term ++ after) (starts_with-append term after)
  where
    at_start : (s : Str) → starts_with s term ≡ true → has_text s term ≡ true
    at_start [] h = h
    at_start (c ∷ s) h = rw (has_text, h) refl
has_text_at (c ∷ before) term after =
    let more = has_text_at before term after in ground (arith, more)

Contains-has_text : (s term : Str) → Contains s term → has_text s term ≡ true
Contains-has_text s term k = ap (λ t. has_text t term) k.split ∙ has_text_at k.before term k.after

-- `n` of the terms stand in the text.
pub data Counts (s : Str) : List Str → ℕ → Type 0 where
  no_terms : Counts s [] 0
  counted :
      {term : Str} {terms : List Str} {n : ℕ}
      → Contains s term
      → Counts s terms n
      → Counts s (term ∷ terms) (suc n)
  passed :
      {term : Str} {terms : List Str} {n : ℕ}
      → (Contains s term → ⊥)
      → Counts s terms n
      → Counts s (term ∷ terms) n

pub score_terms-Counts : (s : Str) (terms : List Str) → Counts s terms (score_terms s terms)
unfolding score_terms
score_terms-Counts s [] = no_terms
score_terms-Counts s (term ∷ terms) = elim (Bool-cases (has_text s term)) [
  | inl hit ↦
      rw (score_terms, hit)
        (subst (Counts s (term ∷ terms)) (omega arith)
          (counted (has_text-Contains s term hit) (score_terms-Counts s terms)))
  | inr miss ↦
      rw (score_terms, miss)
        (passed (λ k. absurd (cc (sym (Contains-has_text s term k) ∙ miss)))
          (score_terms-Counts s terms))
]

pub Counts-score_terms :
    (s : Str) (terms : List Str) (n : ℕ) → Counts s terms n → score_terms s terms ≡ n
unfolding score_terms
Counts-score_terms s terms n no_terms = refl
Counts-score_terms s (term ∷ terms) (suc n) (counted k rest) =
    let hit = Contains-has_text s term k in
    let more = Counts-score_terms s terms n rest in rw (score_terms, hit) (omega (arith, more))
Counts-score_terms s (term ∷ terms) n (passed k rest) = elim (Bool-cases (has_text s term)) [
  | inl hit ↦ absurd (k (has_text-Contains s term hit))
  | inr miss ↦ rw (score_terms, miss) (Counts-score_terms s terms n rest)
]

-- A text with a positive count contains one of the terms.
pub Counts-some :
    (s : Str) (terms : List Str) (n : ℕ)
    → Counts s terms n
    → 0 < n
    → (term : Str) × In term terms × Contains s term
Counts-some s terms n no_terms h = absurd (omega (arith, h))
Counts-some s (term ∷ terms) (suc n) (counted k rest) h = (term, here refl, k)
Counts-some s (term ∷ terms) n (passed k rest) h =
    let (t, i, c) = Counts-some s terms n rest h in (t, there i, c)
