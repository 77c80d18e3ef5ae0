-- ===== src/Skills/Tool/Opens.antt =====
-- packages/skills/src/tools.ts with registry.ts: each skill that is loaded can be opened.
use open_source_harness.Common.{
  ◌≡◌, refl, sym, ap, ◌∙◌, inl, inr, false, Option, some, List, [], ◌∷◌, Str, str_eq_refl, In,
  In-nil, In-cons_inv, arith,
}
use mathlib.Core.Path.{subst}
use open_source_harness.Common.Dict.{get, put, keys, member, Distinct, get-put}
use open_source_harness.Skills.Parse.{ParsedSkill}
use open_source_harness.Skills.Registry.{Platform, Entry, load_skills}
use open_source_harness.Skills.Registry.Sorted.{names}
use open_source_harness.Skills.Registry.Fair.{load_skills-IsFair}
use open_source_harness.Skills.Tool.{by_name, missing_of, opened, opened_of, open_skill}

by_name_keeps :
    (k : Str) (d : List (Str × ParsedSkill)) (skills : List ParsedSkill)
    → member k (names skills) ≡ false
    → get k (by_name d skills) ≡ get k d
unfolding by_name member
by_name_keeps k d [] f = refl
by_name_keeps k d (s ∷ skills) f =
    by_name_keeps k (put s.name s d) skills (ground arith) ∙ (get-put s.name k s d ∙ ground arith)

by_name-get :
    (s : ParsedSkill) (d : List (Str × ParsedSkill)) (skills : List ParsedSkill)
    → Distinct (names skills)
    → In s skills
    → get s.name (by_name d skills) ≡ some s
unfolding by_name
by_name-get s d [] u i = absurd (In-nil i)
by_name-get s d (t ∷ skills) (f, u) i = elim (In-cons_inv i) [
  | inl same ↦
      subst (λ (x : ParsedSkill). get x.name (by_name (put t.name t d) skills) ≡ some x) (sym same)
        (by_name_keeps t.name (put t.name t d) skills f
          ∙ (get-put t.name t.name t d ∙ rw (str_eq_refl t.name) refl))
  | inr later ↦ by_name-get s (put t.name t d) skills u later
]

-- A skill that is loaded is opened under its name: what the model then reads are that skill's own
-- instructions, and the tools that are said to be missing are those that it requires and that are
-- not there.
pub open_skill-load_skills :
    (platform : Platform) (root : Str) (entries : List Entry) (available : Option (List Str))
    (s : ParsedSkill)
    → In s (load_skills platform root (some entries)).skills
    → open_skill (load_skills platform root (some entries)).skills available s.name
      ≡ opened s.name s.body (missing_of available s.requires)
unfolding open_skill
open_skill-load_skills platform root entries available s i =
    let skills = (load_skills platform root (some entries)).skills in
    ap (opened_of (keys (by_name [] skills)) available)
      (by_name-get s [] skills (load_skills-IsFair platform root entries).once i)
