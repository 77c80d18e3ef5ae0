-- ===== src/Skills/Tests.antt =====
-- packages/skills/src: a directory with two files of one name, a third, and one that is malformed, and
-- instances of the theorems.
use open_source_harness.Common.{
  ◌≡◌, refl, true, none, some, List, [], ◌∷◌, ◌++◌, Str, codes, str_eq, starts_with, ends_with,
  is_space, trim, trim_start, arith, if◌then◌else◌,
}
use open_source_harness.Common.Dict.{get, put, member}
use open_source_harness.Skills.Parse.{
  ParsedSkill, skill, refused, no_body, bad_fields, is_name, check_fields, parse_skill,
}
use open_source_harness.Skills.Parse.Lines.{
  after_newline, after_dashes, drop_unit, closing, find_fence, front_matter, split_lines,
  split_commas, unquote, list_item, leading_items, split_colon, read_value, is_skipped, parse_lines,
}
use open_source_harness.Skills.Parse.Reads.{skill_file, IsPlainValue, parse_skill-skill_file}
use open_source_harness.Skills.Registry.{
  Entry, directory, file, other, Platform, candidates, read_each, add_to_group, group_from,
  loaded_groups, duplicates_of, group_errors, insert_by_name, sort_by_name, load_skills,
}
use open_source_harness.Skills.Registry.Fair.{IsFair, load_skills-IsFair}

sealed : Unit {0}
unfolding get put member str_eq starts_with ends_with is_space trim trim_start after_newline
    after_dashes drop_unit closing find_fence front_matter split_lines split_commas unquote
    list_item leading_items split_colon read_value is_skipped parse_lines is_name check_fields
    parse_skill candidates read_each add_to_group group_from loaded_groups duplicates_of
    group_errors insert_by_name sort_by_name load_skills
sealed = tt

abbrev newline : Str
newline = 10 ∷ []

-- quotes, a comment, a block list, an inline list, and a carriage return
abbrev pack : Str
pack =
    codes "---"
    ++ (13 ∷ newline)
    ++ (codes "name: 'pack'" ++ (13 ∷ newline))
    ++ (codes "# a comment" ++ newline)
    ++ (codes "description: Boards: all" ++ newline)
    ++ (codes "requires:" ++ newline)
    ++ (codes "  - runPython" ++ newline)
    ++ (codes "  - \"webSearch\"" ++ newline)
    ++ (codes "---" ++ newline)
    ++ (codes " Do it. " ++ newline)

abbrev pack_skill : ParsedSkill
pack_skill = record {
  name = codes "pack";
  description = codes "Boards: all";
  version = none;
  license = none;
  requires = codes "runPython" ∷ codes "webSearch" ∷ [];
  body = codes "Do it.";
  path = codes "pack.md";
}

reads_pack : parse_skill pack (codes "pack.md") ≡ skill pack_skill
unfolding sealed
reads_pack = refl

bodiless :
    parse_skill (codes "---" ++ newline ++ codes "name: a" ++ newline ++ codes "---") []
    ≡ refused no_body
unfolding sealed
bodiless = refl

misnamed :
    parse_skill
      (codes "---"
        ++ newline
        ++ codes "name: a--b"
        ++ newline
        ++ codes "---"
        ++ newline
        ++ codes "x")
      []
    ≡ refused (bad_fields (codes "name" ∷ codes "description" ∷ []))
unfolding sealed
misnamed = refl

plain_name : IsPlainValue (codes "twin")
unfolding sealed
plain_name = record { line = ground arith; trimmed = refl; bare = refl; no_list = refl }

plain_description : IsPlainValue (codes "One of two.")
unfolding sealed
plain_description = record { line = ground arith; trimmed = refl; bare = refl; no_list = refl }

parse_skill-skill_file_example :
    parse_skill (skill_file (codes "twin") (codes "One of two.") (codes "Text.")) (codes "a.md")
    ≡ skill (record {
      name = codes "twin";
      description = codes "One of two.";
      version = none;
      license = none;
      requires = [];
      body = codes "Text.";
      path = codes "a.md";
    })
unfolding sealed
parse_skill-skill_file_example =
    parse_skill-skill_file (codes "twin") (codes "One of two.") (codes "Text.") (codes "a.md")
      plain_name plain_description refl refl refl refl refl refl

abbrev twin : Str
twin = skill_file (codes "twin") (codes "One of two.") (codes "Text.")

abbrev platform : Platform
platform = record {
  join_path = λ a b. b;
  read_file = λ p.
      if str_eq p (codes "pack.md")
      then some pack
      else if str_eq p (codes "bad.md")
      then some []
      else if str_eq p (codes "SKILL.md")
      then none
      else some twin;
  to_lower = λ s. s;
  at_most = λ a b. true;
}

abbrev entries : List Entry
entries =
    record { name = codes "a.md"; kind = file }
    ∷ record { name = codes "pack.md"; kind = file }
    ∷ record { name = codes "b.md"; kind = file }
    ∷ record { name = codes "bad.md"; kind = file }
    ∷ record { name = codes "empty"; kind = directory }
    ∷ record { name = codes "pipe"; kind = other }
    ∷ []

loads : (load_skills platform [] (some entries)).skills ≡ pack_skill ∷ []
unfolding sealed
loads = refl

load_skills-IsFair_example :
    IsFair
      (read_each platform (candidates platform [] entries))
      (load_skills platform [] (some entries))
load_skills-IsFair_example = load_skills-IsFair platform [] entries
