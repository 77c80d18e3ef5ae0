-- ===== src/Skills/Registry.antt =====
-- packages/skills/src/registry.ts: the installed skills. A directory is the list of its entries, `join` is
-- path.join, `read` is readFile, `none` where it rejects, `to_lower` and `at_most` (of localeCompare) are
-- those of the platform.
pub mod Groups
pub mod Sorted
pub mod Fair
use open_source_harness.Common.{
  ℕ, Bool, true, false, not, Option, none, some, List, [], ◌∷◌, ◌++◌, Str, codes, str_eq, ends_with,
  join, filter, map, if◌then◌else◌,
}
use open_source_harness.Common.Dict.{get, put}
use open_source_harness.Skills.Parse.{ParsedSkill, ParseError, Parsed, skill, refused, parse_skill}

pub data EntryKind : Type 0 where
  directory file other : EntryKind

pub record Entry : Type 0 where
  pub name : Str
  pub kind : EntryKind

pub data Reason : Type 0 where
  malformed : ParseError → Reason
  -- the name, and the paths of the others that have it
  duplicate : Str → List Str → Reason

pub record SkillLoadError : Type 0 where
  pub path : Str
  pub reason : Reason

pub record SkillRegistryResult : Type 0 where
  pub skills : List ParsedSkill
  pub errors : List SkillLoadError

pub record Platform : Type 0 where
  pub join_path : Str → Str → Str
  pub read_file : Str → Option Str
  pub to_lower : Str → Str
  -- `a.localeCompare(b) <= 0`
  pub at_most : Str → Str → Bool

-- A list of skills by name, in the order in which the names came.
abbrev pub Groups : Type 0
Groups = List (Str × List ParsedSkill)

abbrev pub or_empty : Option (List ParsedSkill) → List ParsedSkill
or_empty none = []
or_empty (some group) = group

unfoldable pub add_to_group : ParsedSkill → Groups → Groups
unfolding get put
add_to_group s groups = put s.name (or_empty (get s.name groups) ++ s ∷ []) groups

unfoldable pub group_from : Groups → List ParsedSkill → Groups
unfolding add_to_group
group_from groups [] = groups
group_from groups (s ∷ skills) = group_from (add_to_group s groups) skills

-- `group.filter((s) => s !== duplicate)`, at a place of the group
unfoldable pub duplicates_of : Str → List ParsedSkill → List ParsedSkill → List SkillLoadError
duplicates_of name before [] = []
duplicates_of name before (s ∷ after) =
    record {
      path = s.path;
      reason = duplicate name (map (λ (t : ParsedSkill). t.path) (before ++ after));
    }
    ∷ duplicates_of name (before ++ s ∷ []) after

abbrev pub loaded_of : List ParsedSkill → List ParsedSkill
loaded_of (s ∷ []) = s ∷ []
loaded_of _ = []

abbrev pub errors_of : Str → List ParsedSkill → List SkillLoadError
errors_of name (s ∷ []) = []
errors_of name group = duplicates_of name [] group

unfoldable pub loaded_groups : Groups → List ParsedSkill
loaded_groups [] = []
loaded_groups ((name, group) ∷ groups) = loaded_of group ++ loaded_groups groups

unfoldable pub group_errors : Groups → List SkillLoadError
unfolding duplicates_of
group_errors [] = []
group_errors ((name, group) ∷ groups) = errors_of name group ++ group_errors groups

module _ (platform : Platform) where
  open platform use {join_path, read_file, to_lower, at_most}

  abbrev pub candidate_of : Str → Entry → EntryKind → List Str
  candidate_of root entry directory = join_path (join_path root entry.name) (codes "SKILL.md") ∷ []
  candidate_of root entry file =
      if ends_with (to_lower entry.name) (codes ".md") then join_path root entry.name ∷ [] else []
  candidate_of root entry other = []

  unfoldable pub candidates : Str → List Entry → List Str
  unfolding ends_with
  candidates root [] = []
  candidates root (entry ∷ entries) = candidate_of root entry entry.kind ++ candidates root entries

  abbrev pub parsed_of : Str → Option Str → Option Parsed
  parsed_of path none = none
  parsed_of path (some source) = some (parse_skill source path)

  -- What each candidate that can be read is parsed to.
  unfoldable pub read_each : List Str → List (Str × Parsed)
  unfolding parse_skill
  read_each [] = []
  read_each (path ∷ paths) = elim (parsed_of path (read_file path)) [
    | none ↦ read_each paths
    | some parsed ↦ (path, parsed) ∷ read_each paths
  ]

  -- `sort`, which is stable
  unfoldable pub insert_by_name : ParsedSkill → List ParsedSkill → List ParsedSkill
  insert_by_name s [] = s ∷ []
  insert_by_name s (t ∷ skills) =
      let later = insert_by_name s skills in
      if at_most s.name t.name then s ∷ t ∷ skills else t ∷ later

  unfoldable pub sort_by_name : List ParsedSkill → List ParsedSkill
  unfolding insert_by_name
  sort_by_name [] = []
  sort_by_name (s ∷ skills) = insert_by_name s (sort_by_name skills)

abbrev pub skills_of : List (Str × Parsed) → List ParsedSkill
skills_of [] = []
skills_of ((path, skill s) ∷ read) = s ∷ skills_of read
skills_of ((path, refused e) ∷ read) = skills_of read

abbrev pub refusals_of : List (Str × Parsed) → List SkillLoadError
refusals_of [] = []
refusals_of ((path, skill s) ∷ read) = refusals_of read
refusals_of ((path, refused e) ∷ read) =
    record { path = path; reason = malformed e } ∷ refusals_of read

-- `none` is a directory that cannot be read.
unfoldable pub load_skills : Platform → Str → Option (List Entry) → SkillRegistryResult
unfolding candidates read_each group_from loaded_groups group_errors sort_by_name
load_skills platform root none = record { skills = []; errors = [] }
load_skills platform root (some entries) =
    let read = read_each platform (candidates platform root entries) in
    let groups = group_from [] (skills_of read) in
    record {
      skills = sort_by_name platform (loaded_groups groups);
      errors = refusals_of read ++ group_errors groups;
    }

abbrev pub catalogue_line : ParsedSkill → Str
catalogue_line s = codes "- " ++ s.name ++ codes ": " ++ s.description

abbrev pub catalogue_head : Str
catalogue_head =
    codes "Available skills. Each is a set of instructions for a specific kind of task."
    ++ (10 ∷ [])
    ++ codes "Read one with the `skill` tool BEFORE starting work it covers — the description"
    ++ (10 ∷ [])
    ++ codes "is only a summary, and the instructions matter."
    ++ (10 ∷ 10 ∷ [])

-- `skillCatalogue`, and `skillInstructions`
unfoldable pub skill_catalogue : List ParsedSkill → Str
unfolding join
skill_catalogue [] = []
skill_catalogue (s ∷ skills) = catalogue_head ++ join (10 ∷ []) (map catalogue_line (s ∷ skills))
