-- ===== src/Workspace/Paths/Inside.antt =====
-- packages/workspace/src/paths.ts, resolveInRoot: which paths are let through, and where they lead.
use mathlib.Core.Path.{subst}
use open_source_harness.Common.{
  ◌≡◌, ◌≢◌, refl, sym, ap, ◌∙◌, ◌↔◌, inl, inr, true, false, [], ◌∷◌, ◌++◌, Str, str_eq,
  str_eq_sound, str_eq_refl, starts_with, ends_with, includes, arith, Bool-cases, All, append_assoc,
  ◌==◌,
}
use open_source_harness.Common.Affix.{
  prefix_rest, suffix_rest, starts_with-append, ends_with-append,
}
use open_source_harness.Workspace.Paths.{
  PlatformPath, confined, path_escape, strip_leading, with_sep, is_inside, resolve_in_root,
}

-- The text does not begin with a slash.
abbrev pub NotRooted : Str → Type 0
NotRooted [] = Unit
NotRooted (c ∷ s) = c ≢ b'/'

abbrev pub Slashes : Str → Type 0
Slashes s = All (λ c. c ≡ b'/') s

-- `rel` is `input` without the slashes that it begins with.
pub record IsRelative (input rel : Str) : Type 0 where
  pub slashes : Str
  pub all_slashes : Slashes slashes
  pub split : input ≡ slashes ++ rel
  pub not_rooted : NotRooted rel

strip_leading-IsRelative : (input : Str) → IsRelative input (strip_leading input)
unfolding strip_leading
strip_leading-IsRelative [] = record {
  slashes = [];
  all_slashes = tt;
  split = refl;
  not_rooted = tt;
}
strip_leading-IsRelative (c ∷ s) = elim (Bool-cases (c == b'/')) [
  | inl slash ↦
      let more = strip_leading-IsRelative s in
      rw (slash) (record {
        slashes = c ∷ more.slashes;
        all_slashes = (ground arith, more.all_slashes);
        split = ap (◌∷◌ c) more.split;
        not_rooted = more.not_rooted;
      })
  | inr plain ↦
      rw (plain)
        (record { slashes = []; all_slashes = tt; split = refl; not_rooted = λ e. ground arith })
]

strip_nothing : (rel : Str) → NotRooted rel → strip_leading rel ≡ rel
unfolding strip_leading
strip_nothing [] n = refl
strip_nothing (c ∷ s) n = ground arith

strip_slashes :
    (slashes rel : Str) → Slashes slashes → NotRooted rel → strip_leading (slashes ++ rel) ≡ rel
unfolding strip_leading
strip_slashes [] rel a n = strip_nothing rel n
strip_slashes (c ∷ s) rel (e, a) n = let more = strip_slashes s rel a n in ground (arith, e, more)

strip_unique : (input rel : Str) → IsRelative input rel → strip_leading input ≡ rel
strip_unique input rel r =
    ap strip_leading r.split ∙ strip_slashes r.slashes rel r.all_slashes r.not_rooted

module _ (impl : PlatformPath) where
  open impl use {absolute, resolve, sep}

  -- The path is the root, or stands behind the root and a separator, which may be the end of the
  -- root itself.
  pub data IsWithin (root p : Str) : Type 0 where
    is_root : p ≡ root → IsWithin root p
    behind_separator : (rest : Str) → p ≡ root ++ sep ++ rest → IsWithin root p
    behind_top : (stem rest : Str) → root ≡ stem ++ sep → p ≡ root ++ rest → IsWithin root p

  pub inside-IsWithin : (root p : Str) → is_inside impl root p ≡ true → IsWithin root p
  unfolding is_inside
  inside-IsWithin root p h = elim (Bool-cases (str_eq p root)) [
    | inl same ↦ is_root (str_eq_sound p root same)
    | inr differ ↦
        let behind = rw (is_inside, differ) at h in
        elim (Bool-cases (ends_with root sep)) [
          | inl top ↦
              let (stem, e) = suffix_rest root sep top in
              let (rest, f) = prefix_rest p root (rw (top) at behind) in behind_top stem rest e f
          | inr below ↦
              let (rest, f) = prefix_rest p (root ++ sep) (rw (below) at behind) in
              behind_separator rest f
        ]
  ]

  behind_inside :
      (root p : Str) → starts_with p (with_sep impl root) ≡ true → is_inside impl root p ≡ true
  unfolding is_inside
  behind_inside root p h = ground arith

  pub IsWithin-inside : (root p : Str) → IsWithin root p → is_inside impl root p ≡ true
  unfolding is_inside
  IsWithin-inside root p (is_root e) =
      let same : str_eq p root ≡ true = ap (λ q. str_eq q root) e ∙ str_eq_refl root in
      rw (is_inside, same) refl
  IsWithin-inside root p (behind_top stem rest e f) =
      let top : ends_with root sep ≡ true =
        ap (λ r. ends_with r sep) e ∙ ends_with-append stem sep in
      behind_inside root p
        (rw (top) (ap (λ q. starts_with q root) f ∙ starts_with-append root rest))
  IsWithin-inside root p (behind_separator rest e) =
      behind_inside root p (elim (Bool-cases (ends_with root sep)) [
        | inl top ↦ rw (top) (
            ap (λ q. starts_with q root) (e ∙ append_assoc root sep rest)
            ∙ starts_with-append root (sep ++ rest))
        | inr below ↦
            rw (below)
              (ap (λ q. starts_with q (root ++ sep)) e ∙ starts_with-append (root ++ sep) rest)
      ])

  -- An input is let through as a path exactly when it has no null character, the path is what the
  -- platform resolves against the absolute root without the slashes that the input begins with, and
  -- the path is the root itself or stands behind the root and a separator: not merely behind the
  -- same letters.
  pub resolve_in_root-confines :
      (root input p : Str)
      → (resolve_in_root impl root input ≡ confined p) ↔ (
          (includes 0 input ≡ false)
          × ((rel : Str) × IsRelative input rel × (p ≡ resolve (absolute root) rel))
          × IsWithin (absolute root) p)
  unfolding resolve_in_root
  resolve_in_root-confines root input p = (leads, lets_through)
    where
      escaped : path_escape ≡ confined p → ⊥
      escaped e = cc

      through : {q : Str} → confined q ≡ confined p → q ≡ p
      through e = cc

      leads :
          resolve_in_root impl root input ≡ confined p
          → (includes 0 input ≡ false)
            × ((rel : Str) × IsRelative input rel × (p ≡ resolve (absolute root) rel))
            × IsWithin (absolute root) p
      leads h = elim (Bool-cases (includes 0 input)) [
        | inl null_ ↦ absurd (escaped (rw (resolve_in_root, null_) at h))
        | inr clean ↦
            elim (Bool-cases
              (is_inside impl (absolute root) (resolve (absolute root) (strip_leading input)))) [
                | inr outside ↦ absurd (escaped (rw (resolve_in_root, clean, outside) at h))
                | inl inside ↦
                    let same : resolve (absolute root) (strip_leading input) ≡ p =
                      through (rw (resolve_in_root, clean, inside) at h) in
                    (
                      clean,
                      (strip_leading input, strip_leading-IsRelative input, sym same),
                      subst (IsWithin (absolute root)) same
                          (inside-IsWithin (absolute root) _ inside),
                    )
              ]
      ]

      lets_through :
          (includes 0 input ≡ false)
            × ((rel : Str) × IsRelative input rel × (p ≡ resolve (absolute root) rel))
            × IsWithin (absolute root) p
          → resolve_in_root impl root input ≡ confined p
      lets_through h =
          let (clean, (rel, relative, e), within) = h in
          let same : resolve (absolute root) (strip_leading input) ≡ p =
            ap (resolve (absolute root)) (strip_unique input rel relative) ∙ sym e in
          let inside =
            ap (is_inside impl (absolute root)) same ∙ IsWithin-inside (absolute root) p within in
          rw (resolve_in_root, clean, inside) (ap confined same)
