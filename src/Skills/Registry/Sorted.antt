-- ===== src/Skills/Registry/Sorted.antt =====
-- packages/skills/src/registry.ts: the skills sorted by name.
use open_source_harness.Common.{
  ◌≡◌, refl, ap, ◌∙◌, ◌⊎◌, inl, inr, false, ◌||◌, List, [], ◌∷◌, Str, str_eq, str_eq_iff, map, In,
  here, there, In-nil, In-cons_inv, Bool-cases, arith,
}
use open_source_harness.Common.Dict.{member, Distinct}
use open_source_harness.Skills.Parse.{ParsedSkill}
use open_source_harness.Skills.Registry.{Platform, insert_by_name, sort_by_name}
use open_source_harness.Skills.Registry.Groups.{}

abbrev pub names : List ParsedSkill → List Str
names skills = map (λ (s : ParsedSkill). s.name) skills

module _ (platform : Platform) where
  insert-In :
      (s t : ParsedSkill) (skills : List ParsedSkill)
      → (s ≡ t) ⊎ In s skills
      → In s (insert_by_name platform t skills)
  unfolding insert_by_name
  insert-In s t [] (inl same) = here same
  insert-In s t [] (inr i) = absurd (In-nil i)
  insert-In s t (u ∷ skills) h = elim (Bool-cases (platform.at_most t.name u.name)) [
    | inl first ↦ rw (first) (elim h [ inl same ↦ here same | inr i ↦ there i ])
    | inr later ↦ rw (later) (elim h [
      | inl same ↦ there (insert-In s t skills (inl same))
      | inr i ↦ elim (In-cons_inv i) [
        | inl same ↦ here same
        | inr j ↦ there (insert-In s t skills (inr j))
      ]
    ])
  ]

  In-insert :
      (s t : ParsedSkill) (skills : List ParsedSkill)
      → In s (insert_by_name platform t skills)
      → (s ≡ t) ⊎ In s skills
  unfolding insert_by_name
  In-insert s t [] i = elim (In-cons_inv i) [ inl same ↦ inl same | inr j ↦ absurd (In-nil j) ]
  In-insert s t (u ∷ skills) i = elim (Bool-cases (platform.at_most t.name u.name)) [
    | inl first ↦ In-cons_inv (rw first at i)
    | inr later ↦ elim (In-cons_inv (rw later at i)) [
      | inl same ↦ inr (here same)
      | inr j ↦ elim (In-insert s t skills j) [ inl same ↦ inl same | inr k ↦ inr (there k) ]
    ]
  ]

  pub sort-In :
      (s : ParsedSkill) (skills : List ParsedSkill)
      → In s skills
      → In s (sort_by_name platform skills)
  unfolding sort_by_name
  sort-In s [] i = i
  sort-In s (t ∷ skills) i = elim (In-cons_inv i) [
    | inl same ↦ insert-In s t (sort_by_name platform skills) (inl same)
    | inr j ↦ insert-In s t (sort_by_name platform skills) (inr (sort-In s skills j))
  ]

  pub In-sort :
      (s : ParsedSkill) (skills : List ParsedSkill)
      → In s (sort_by_name platform skills)
      → In s skills
  unfolding sort_by_name
  In-sort s [] i = i
  In-sort s (t ∷ skills) i = elim (In-insert s t (sort_by_name platform skills) i) [
    | inl same ↦ here same
    | inr j ↦ there (In-sort s skills j)
  ]

  member-insert :
      (n : Str) (t : ParsedSkill) (skills : List ParsedSkill)
      → member n (names (insert_by_name platform t skills))
        ≡ (str_eq t.name n || member n (names skills))
  unfolding insert_by_name member
  member-insert n t [] = refl
  member-insert n t (u ∷ skills) = let rest = member-insert n t skills in ground (arith, rest)

  member-sort :
      (n : Str) (skills : List ParsedSkill)
      → member n (names (sort_by_name platform skills)) ≡ member n (names skills)
  unfolding sort_by_name member
  member-sort n [] = refl
  member-sort n (t ∷ skills) =
      member-insert n t (sort_by_name platform skills)
      ∙ ap (λ b. str_eq t.name n || b) (member-sort n skills)

  insert-Distinct :
      (t : ParsedSkill) (skills : List ParsedSkill)
      → member t.name (names skills) ≡ false
      → Distinct (names skills)
      → Distinct (names (insert_by_name platform t skills))
  unfolding insert_by_name member
  insert-Distinct t [] f d = (f, tt)
  insert-Distinct t (u ∷ skills) f d = ground (
    arith,
    insert-Distinct t skills,
    member-insert u.name t skills,
    str_eq_iff u.name t.name,
    str_eq_iff t.name u.name,
  )

  pub sort-Distinct :
      (skills : List ParsedSkill)
      → Distinct (names skills)
      → Distinct (names (sort_by_name platform skills))
  unfolding sort_by_name
  sort-Distinct [] d = tt
  sort-Distinct (t ∷ skills) d =
      insert-Distinct t (sort_by_name platform skills) (member-sort t.name skills ∙ d.0)
        (sort-Distinct skills d.1)
