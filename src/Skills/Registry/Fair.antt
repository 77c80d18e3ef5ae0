-- ===== src/Skills/Registry/Fair.antt =====
-- packages/skills/src/registry.ts, loadSkills: nothing is loaded by chance, and nothing is dropped in
-- silence.
use mathlib.Core.Path.{subst}
use open_source_harness.Common.{
  ◌≡◌, refl, sym, ap, ◌∙◌, ◌⊎◌, inl, inr, true, false, ◌||◌, some, List, [], ◌∷◌, ◌++◌, Str, str_eq,
  str_eq_refl, str_eq_sound, All, All-filter, In, here, In-nil, In-filter, In-append_left,
  In-append_right, Bool-cases, Option-cases, arith,
}
use open_source_harness.Common.Dict.{get, keys, member, Distinct, get-eq-none}
use open_source_harness.Skills.Parse.{ParsedSkill, Parsed}
use open_source_harness.Skills.Registry.{
  Entry, SkillLoadError, SkillRegistryResult, Platform, Groups, or_empty, group_from, loaded_groups,
  group_errors, candidates, read_each, skills_of, refusals_of, load_skills,
}
use open_source_harness.Skills.Registry.Groups.{
  named, group_from-named, group_from-Distinct, In-get, get-In, In-loaded_groups, loaded_groups-In,
  IsDuplicate, group_errors-reports,
}
use open_source_harness.Skills.Registry.Sorted.{names, sort-In, In-sort, sort-Distinct}

member-append_names :
    (n : Str) (xs ys : List ParsedSkill)
    → member n (names (xs ++ ys)) ≡ (member n (names xs) || member n (names ys))
unfolding member
member-append_names n [] ys = refl
member-append_names n (x ∷ xs) ys = let rest = member-append_names n xs ys in ground (arith, rest)

-- Each group is of its name.
abbrev Keyed : Groups → Type 0
Keyed [] = Unit
Keyed ((n, group) ∷ groups) = All (λ (s : ParsedSkill). str_eq s.name n ≡ true) group × Keyed groups

loaded_names :
    (k : Str) (groups : Groups)
    → Keyed groups
    → member k (keys groups) ≡ false
    → member k (names (loaded_groups groups)) ≡ false
unfolding loaded_groups member
loaded_names k [] w f = refl
loaded_names k ((n, []) ∷ groups) (h, w) f = loaded_names k groups w (ground arith)
loaded_names k ((n, s ∷ []) ∷ groups) (h, w) f =
    let rest = loaded_names k groups w (ground arith) in
    let same : s.name ≡ n = str_eq_sound s.name n h.0 in
    let apart : str_eq s.name k ≡ false = ap (λ m. str_eq m k) same ∙ ground arith in
    rw (apart) rest
loaded_names k ((n, s ∷ t ∷ group) ∷ groups) (h, w) f = loaded_names k groups w (ground arith)

loaded_groups-Distinct :
    (groups : Groups)
    → Keyed groups
    → Distinct (keys groups)
    → Distinct (names (loaded_groups groups))
unfolding loaded_groups
loaded_groups-Distinct [] w d = tt
loaded_groups-Distinct ((n, []) ∷ groups) (h, w) (f, d) = loaded_groups-Distinct groups w d
loaded_groups-Distinct ((n, s ∷ []) ∷ groups) (h, w) (f, d) = (
  ap (λ m. member m (names (loaded_groups groups))) (str_eq_sound s.name n h.0)
      ∙ loaded_names n groups w f,
  loaded_groups-Distinct groups w d,
)
loaded_groups-Distinct ((n, s ∷ t ∷ group) ∷ groups) (h, w) (f, d) =
    loaded_groups-Distinct groups w d

Keyed-of_get :
    (groups : Groups)
    → Distinct (keys groups)
    → ((n : Str) → All (λ (s : ParsedSkill). str_eq s.name n ≡ true) (or_empty (get n groups)))
    → Keyed groups
unfolding get
Keyed-of_get [] d h = tt
Keyed-of_get ((n, group) ∷ groups) (f, d) h = (
  subst (λ o. All (λ (s : ParsedSkill). str_eq s.name n ≡ true) (or_empty o))
      (get-In n group ((n, group) ∷ groups) (f, d) (here refl)) (h n),
  Keyed-of_get groups d λ m. elim (Bool-cases (str_eq n m)) [
    | inr other ↦ rw other at (h m)
    | inl same ↦
        rw
          (get-eq-none m groups
            (ap (λ k. member k (keys groups)) (sym (str_eq_sound n m same)) ∙ f))
          tt
  ],
)

group_of :
    (n : Str) (skills : List ParsedSkill) → or_empty (get n (group_from [] skills)) ≡ named n skills
unfolding get
group_of n skills = group_from-named n [] skills

module _ (skills : List ParsedSkill) where
  grouped-Keyed : Keyed (group_from [] skills)
  grouped-Keyed = Keyed-of_get (group_from [] skills) (group_from-Distinct [] skills tt) λ n.
      subst (All (λ (s : ParsedSkill). str_eq s.name n ≡ true)) (sym (group_of n skills))
        (All-filter (λ (s : ParsedSkill). str_eq s.name n) skills)

  -- the entry of a name that some skill has
  entry_of :
      (s : ParsedSkill) → In s skills → In (s.name, named s.name skills) (group_from [] skills)
  entry_of s i = elim (Option-cases (get s.name (group_from [] skills))) [
    | inl missing ↦
        let gone : named s.name skills ≡ [] = sym (group_of s.name skills) ∙ ap or_empty missing in
        absurd (
          In-nil (
            subst (In s) gone (
              In-filter (λ (t : ParsedSkill). str_eq t.name s.name) s skills i
                (str_eq_refl s.name))))
    | inr (group, found) ↦
        let same : group ≡ named s.name skills = sym (ap or_empty found) ∙ group_of s.name skills in
        subst (λ g. In (s.name, g) (group_from [] skills)) same
          (In-get s.name group (group_from [] skills) found)
  ]

  grouped-alone :
      (s : ParsedSkill) → In s (loaded_groups (group_from [] skills)) → named s.name skills ≡ s ∷ []
  grouped-alone s i =
      let (n, entry) = In-loaded_groups s (group_from [] skills) i in
      let group : named n skills ≡ s ∷ [] =
        sym (group_of n skills)
        ∙ ap or_empty
            (get-In n (s ∷ []) (group_from [] skills) (group_from-Distinct [] skills tt) entry) in
      let same : s.name ≡ n = str_eq_sound s.name n (
        (subst (All (λ (s : ParsedSkill). str_eq s.name n ≡ true)) group
          (All-filter (λ (s : ParsedSkill). str_eq s.name n) skills)).0) in
      ap (λ k. named k skills) same ∙ group

-- What of the skills that were parsed is loaded, and what is said of the others.
pub record IsFair (read : List (Str × Parsed)) (result : SkillRegistryResult) : Type 0 where
  pub once : Distinct (names result.skills)
  -- a skill is loaded only if no other has its name
  pub alone : (s : ParsedSkill) → In s result.skills → named s.name (skills_of read) ≡ s ∷ []
  -- each skill that was parsed is loaded or reported
  pub all :
      (s : ParsedSkill)
      → In s (skills_of read)
      → In s result.skills ⊎ ((e : SkillLoadError) × In e result.errors × IsDuplicate s e)
  -- each file that could not be parsed is reported
  pub refusals : (e : SkillLoadError) → In e (refusals_of read) → In e result.errors

-- Of the files that can be read, each that is parsed to a skill is loaded, or reported because its name
-- is taken, and each that is not parsed is reported. A skill is loaded only if it is the only one
-- of its name among those that were parsed, so no two that are loaded share a name.
pub load_skills-IsFair :
    (platform : Platform) (root : Str) (entries : List Entry)
    → IsFair
        (read_each platform (candidates platform root entries))
        (load_skills platform root (some entries))
unfolding load_skills
load_skills-IsFair platform root entries =
    let read = read_each platform (candidates platform root entries) in
    let groups = group_from [] (skills_of read) in
    record {
      once = sort-Distinct platform (loaded_groups groups) (
          loaded_groups-Distinct groups (grouped-Keyed (skills_of read))
            (group_from-Distinct [] (skills_of read) tt));
      alone = λ s i. grouped-alone (skills_of read) s (In-sort platform s (loaded_groups groups) i);
      all = λ s i.
          elim (group_errors-reports s.name (named s.name (skills_of read)) s groups
            (entry_of (skills_of read) s i)
            (In-filter (λ (t : ParsedSkill). str_eq t.name s.name) s (skills_of read) i
              (str_eq_refl s.name))
            refl) [
              | inl only ↦ inl (
                  sort-In platform s (loaded_groups groups) (
                    loaded_groups-In s s.name groups
                      (subst (λ g. In (s.name, g) groups) only (entry_of (skills_of read) s i))))
              | inr (e, found, is) ↦
                  inr (e, In-append_right e (refusals_of read) (group_errors groups) found, is)
            ];
      refusals = λ e i. In-append_left e (refusals_of read) (group_errors groups) i;
    }
