-- ===== src/Common/Affix.antt =====
-- Texts at the start, at the end and within a text.
use mathlib.Core.Path.{◌≡◌, refl, sym, ap, ◌∙◌}
use mathlib.Core.Bool.{true}
use mathlib.Core.List.{[], ◌∷◌, ◌++◌, reverse, reverse-append, reverse-reverse}
use native.Mathlib.Omega.{arith}
use open_source_harness.Common.Text.{Str, starts_with, ends_with}

pub prefix_rest : (s p : Str) → starts_with s p ≡ true → (rest : Str) × (s ≡ p ++ rest)
unfolding starts_with
prefix_rest s [] h = (s, refl)
prefix_rest [] (d ∷ p) h = absurd (ground arith)
prefix_rest (c ∷ s) (d ∷ p) h =
    let split : (c ≡ d) × (starts_with s p ≡ true) = ground arith in
    let (rest, e) = prefix_rest s p split.1 in
    (rest, ap (◌∷◌ c) e ∙ ap (λ x. x ∷ (p ++ rest)) split.0)

pub starts_with-append : (p rest : Str) → starts_with (p ++ rest) p ≡ true
unfolding starts_with
starts_with-append [] rest = ground arith
starts_with-append (c ∷ p) rest = let more = starts_with-append p rest in ground (arith, more)

pub suffix_rest : (s p : Str) → ends_with s p ≡ true → (stem : Str) × (s ≡ stem ++ p)
unfolding ends_with
suffix_rest s p h =
    let (rest, e) = prefix_rest (reverse s) (reverse p) h in
    (
      reverse rest,
      sym (reverse-reverse s)
          ∙ ap reverse e
          ∙ reverse-append (reverse p) rest
          ∙ ap (◌++◌ (reverse rest)) (reverse-reverse p),
    )

pub ends_with-append : (stem p : Str) → ends_with (stem ++ p) p ≡ true
unfolding ends_with
ends_with-append stem p =
    ap (λ s. starts_with s (reverse p)) (reverse-append stem p)
    ∙ starts_with-append (reverse p) (reverse stem)
