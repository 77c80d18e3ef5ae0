-- ===== src/Skills/Registry/Groups.antt =====
-- packages/skills/src/registry.ts: the groups of the skills by name.
use mathlib.Core.Path.{subst}
use mathlib.Core.Option.{some-injective}
use open_source_harness.Common.{
  ◌≡◌, refl, sym, ap, ◌∙◌, ◌⊎◌, inl, inr, Bool, true, false, ◌||◌, some, List, [], ◌∷◌, ◌++◌, Str,
  str_eq, str_eq_sound, str_eq_refl, filter, map, append_assoc, append-nil, In, here, there, In-nil,
  In-cons_inv, In-append_left, In-append_right, Bool-cases, arith, if◌then◌else◌,
}
use open_source_harness.Common.Dict.{get, keys, member, Distinct, get-put, put-Distinct}
use open_source_harness.Skills.Parse.{ParsedSkill}
use open_source_harness.Skills.Registry.{
  Groups, or_empty, add_to_group, group_from, loaded_of, loaded_groups, duplicates_of, errors_of,
  group_errors, SkillLoadError, duplicate,
}

-- the skills that have a name
abbrev pub named : Str → List ParsedSkill → List ParsedSkill
named name skills = filter (λ (s : ParsedSkill). str_eq s.name name) skills

group-put :
    (name : Str) (s : ParsedSkill) (groups : Groups)
    → or_empty (get name (add_to_group s groups))
      ≡ or_empty (get name groups) ++ named name (s ∷ [])
unfolding add_to_group
group-put name s groups = elim (Bool-cases (str_eq s.name name)) [
  | inl same ↦
      rw (get-put s.name name (or_empty (get s.name groups) ++ s ∷ []) groups, same)
        (ap (λ n. or_empty (get n groups) ++ s ∷ []) (str_eq_sound s.name name same))
  | inr differs ↦
      rw (get-put s.name name (or_empty (get s.name groups) ++ s ∷ []) groups, differs)
        (sym (append-nil (or_empty (get name groups))))
]

-- A group is that of the skills with its name, in their order.
pub group_from-named :
    (name : Str) (groups : Groups) (skills : List ParsedSkill)
    → or_empty (get name (group_from groups skills))
      ≡ or_empty (get name groups) ++ named name skills
unfolding group_from
group_from-named name groups [] = sym (append-nil _)
group_from-named name groups (s ∷ skills) =
    group_from-named name (add_to_group s groups) skills
    ∙ ap (λ g. g ++ named name skills) (group-put name s groups)
    ∙ append_assoc (or_empty (get name groups)) (named name (s ∷ [])) (named name skills)
    ∙ ap (λ g. or_empty (get name groups) ++ g) (joined (str_eq s.name name))
  where
    joined :
        (b : Bool)
        → (if b then s ∷ [] else []) ++ named name skills
          ≡ (if b then s ∷ named name skills else named name skills)
    joined true = refl
    joined false = refl

pub group_from-Distinct :
    (groups : Groups) (skills : List ParsedSkill)
    → Distinct (keys groups)
    → Distinct (keys (group_from groups skills))
unfolding group_from add_to_group
group_from-Distinct groups [] d = d
group_from-Distinct groups (s ∷ skills) d =
    group_from-Distinct (add_to_group s groups) skills (put-Distinct s.name _ groups d)

module _ {V : Type 0} where
  pub In-get : (k : Str) (v : V) (d : List (Str × V)) → get k d ≡ some v → In (k, v) d
  unfolding get
  In-get k v [] h = cc
  In-get k v ((j, w) ∷ d) h = elim (Bool-cases (str_eq j k)) [
    | inl same ↦
        here (λ i. (sym (str_eq_sound j k same) i, sym (some-injective _ _ (rw same at h)) i))
    | inr other ↦ there (In-get k v d (rw other at h))
  ]

  In-member : (k : Str) (v : V) (d : List (Str × V)) → In (k, v) d → member k (keys d) ≡ true
  unfolding member
  In-member k v [] i = absurd (In-nil i)
  In-member k v ((j, w) ∷ d) i = elim (In-cons_inv i) [
    | inl same ↦
        subst (λ (e : Str × V). (str_eq e.0 k || member k (keys d)) ≡ true) same
          (rw (str_eq_refl k) refl)
    | inr later ↦ let rest = In-member k v d later in ground (arith, rest)
  ]

  pub get-In :
      (k : Str) (v : V) (d : List (Str × V)) → Distinct (keys d) → In (k, v) d → get k d ≡ some v
  unfolding get
  get-In k v [] u i = absurd (In-nil i)
  get-In k v ((j, w) ∷ d) u i = elim (In-cons_inv i) [
    | inl same ↦
        subst (λ (e : Str × V). (if str_eq e.0 k then some e.1 else get k d) ≡ some v) same
          (rw (str_eq_refl k) refl)
    | inr later ↦ elim (Bool-cases (str_eq j k)) [
      | inl clash ↦
          let present : member j (keys d) ≡ true =
            ap (λ n. member n (keys d)) (str_eq_sound j k clash) ∙ In-member k v d later in
          cc (present, u.0)
      | inr other ↦ rw (other) (get-In k v d u.1 later)
    ]
  ]

-- A skill is loaded exactly where it is alone in its group.
pub In-loaded_groups :
    (s : ParsedSkill) (groups : Groups)
    → In s (loaded_groups groups)
    → (n : Str) × In (n, s ∷ []) groups
unfolding loaded_groups
In-loaded_groups s [] i = absurd (In-nil i)
In-loaded_groups s ((n, []) ∷ groups) i =
    let (m, rest) = In-loaded_groups s groups i in (m, there rest)
In-loaded_groups s ((n, t ∷ []) ∷ groups) i = elim (In-cons_inv i) [
  | inl same ↦ (n, here (ap (λ (x : ParsedSkill). (n, x ∷ [])) same))
  | inr later ↦ let (m, rest) = In-loaded_groups s groups later in (m, there rest)
]
In-loaded_groups s ((n, t ∷ u ∷ group) ∷ groups) i =
    let (m, rest) = In-loaded_groups s groups i in (m, there rest)

pub loaded_groups-In :
    (s : ParsedSkill) (n : Str) (groups : Groups)
    → In (n, s ∷ []) groups
    → In s (loaded_groups groups)
unfolding loaded_groups
loaded_groups-In s n [] i = absurd (In-nil i)
loaded_groups-In s n ((m, group) ∷ groups) (here same) =
    In-append_left s (loaded_of group) (loaded_groups groups)
      (subst (λ g. In s (loaded_of g)) (ap (λ (e : Str × List ParsedSkill). e.1) same) (here refl))
loaded_groups-In s n ((m, group) ∷ groups) (there i) =
    In-append_right s (loaded_of group) (loaded_groups groups) (loaded_groups-In s n groups i)

-- An error for this skill that says that its name is taken.
abbrev pub IsDuplicate : ParsedSkill → SkillLoadError → Type 0
IsDuplicate s e = (e.path ≡ s.path) × ((others : List Str) × (e.reason ≡ duplicate s.name others))

duplicates_of-In :
    (name : Str) (s : ParsedSkill) (before group : List ParsedSkill)
    → name ≡ s.name
    → In s group
    → (e : SkillLoadError) × In e (duplicates_of name before group) × IsDuplicate s e
unfolding duplicates_of
duplicates_of-In name s before [] n i = absurd (In-nil i)
duplicates_of-In name s before (t ∷ after) n (here same) = (
  record {
    path = t.path;
    reason = duplicate name (map (λ (t : ParsedSkill). t.path) (before ++ after));
  },
  here refl,
  (
    ap (λ (x : ParsedSkill). x.path) (sym same),
    (_, ap (λ m. duplicate m (map (λ (t : ParsedSkill). t.path) (before ++ after))) n),
  ),
)
duplicates_of-In name s before (t ∷ after) n (there i) =
    let (e, found, is) = duplicates_of-In name s (before ++ t ∷ []) after n i in
    (e, there found, is)

-- In a group of several each is reported.
errors_of-In :
    (name : Str) (s : ParsedSkill) (group : List ParsedSkill)
    → name ≡ s.name
    → In s group
    → (group ≡ s ∷ []) ⊎ ((e : SkillLoadError) × In e (errors_of name group) × IsDuplicate s e)
errors_of-In name s [] n i = absurd (In-nil i)
errors_of-In name s (t ∷ []) n i = elim (In-cons_inv i) [
  | inl same ↦ inl (ap (λ x. x ∷ []) (sym same))
  | inr later ↦ absurd (In-nil later)
]
errors_of-In name s (t ∷ u ∷ group) n i = inr (duplicates_of-In name s [] (t ∷ u ∷ group) n i)

group_errors-In :
    (name : Str) (group : List ParsedSkill) (e : SkillLoadError) (groups : Groups)
    → In (name, group) groups
    → In e (errors_of name group)
    → In e (group_errors groups)
unfolding group_errors
group_errors-In name group e [] i j = absurd (In-nil i)
group_errors-In name group e ((m, g) ∷ groups) (here same) j =
    In-append_left e (errors_of m g) (group_errors groups)
      (subst (λ (x : Str × List ParsedSkill). In e (errors_of x.0 x.1)) same j)
group_errors-In name group e ((m, g) ∷ groups) (there i) j =
    In-append_right e (errors_of m g) (group_errors groups)
      (group_errors-In name group e groups i j)

-- Each skill of a group is the only one of it, or is reported.
pub group_errors-reports :
    (name : Str) (group : List ParsedSkill) (s : ParsedSkill) (groups : Groups)
    → In (name, group) groups
    → In s group
    → name ≡ s.name
    → (group ≡ s ∷ []) ⊎ ((e : SkillLoadError) × In e (group_errors groups) × IsDuplicate s e)
group_errors-reports name group s groups i j n = elim (errors_of-In name s group n j) [
  | inl alone ↦ inl alone
  | inr (e, found, is) ↦ inr (e, group_errors-In name group e groups i found, is)
]
