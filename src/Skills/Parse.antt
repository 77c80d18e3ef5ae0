-- ===== src/Skills/Parse.antt =====
-- packages/skills/src/parse.ts: the reader of a SKILL.md. The schema is that of `skillFrontmatterSchema`;
-- of what zod says of a bad field only its name is kept. An object's key `__proto__` is not told apart.
pub mod Lines
pub mod Reads
use open_source_harness.Common.{
  ℕ, ◌≤◌, Bool, true, false, not, ◌&&◌, ◌||◌, Option, none, some, List, [], ◌∷◌, ◌++◌, Str, codes,
  str_eq, starts_with, ends_with, is_space, trim, trim_start, includes, before_first, filter, map,
  drop, take, length, any, ◌==◌, leb, if◌then◌else◌,
}
use open_source_harness.Common.Monad.{◌>>=◌}
use open_source_harness.Common.Dict.{get, put}
use open_source_harness.Skills.Parse.Lines.{
  after_newline, after_dashes, drop_unit, closing, with_unit, fence_or, find_fence, front_matter,
  push_unit, split_lines, split_commas, drop_last, between, unquote, after_dash, list_item,
  non_empty, leading_items, Value, Frontmatter, split_colon, read_value, is_some, is_skipped, Block,
  set_field, read_or, parse_lines, one, many, unreadable, fields,
}

pub record ParsedSkill : Type 0 where
  pub name : Str
  pub description : Str
  pub version : Option Str
  pub license : Option Str
  pub requires : List Str
  pub body : Str
  pub path : Str

pub data ParseError : Type 0 where
  no_front_matter no_body : ParseError
  cannot_read : Str → ParseError
  -- the fields that the schema refuses
  bad_fields : List Str → ParseError

pub data Parsed : Type 0 where
  skill : ParsedSkill → Parsed
  refused : ParseError → Parsed

abbrev pub is_lower : ℕ → Bool
is_lower c = (leb 97 c && leb c 122) || (leb 48 c && leb c 57)

-- `/^[a-z0-9]+(-[a-z0-9]+)*$/`; the flag says that a word has begun
unfoldable pub is_name : Bool → Str → Bool
is_name begun [] = begun
is_name begun (c ∷ s) =
    let word = is_name true s in
    let gap = is_name false s in if is_lower c then word else (c == b'-') && begun && gap

abbrev pub all_one : Option Value → Option (Option Str)
all_one none = some none
all_one (some (one s)) = some (some s)
all_one (some (many items)) = none

abbrev pub name_of : Option Value → Option Str
name_of none = none
name_of (some (many items)) = none
name_of (some (one s)) = if leb (length s) 64 && is_name false s then some s else none

abbrev pub description_of : Option Value → Option Str
description_of none = none
description_of (some (many items)) = none
description_of (some (one s)) = if non_empty s && leb (length s) 1_024 then some s else none

abbrev pub requires_of : Option Value → Option (List Str)
requires_of none = some []
requires_of (some (one s)) = none
requires_of (some (many items)) = some items

abbrev pub bad_if {ℓ} : {A : Type ℓ} → Str → Option A → List Str
bad_if key none = key ∷ []
bad_if key (some a) = []

abbrev pub skill_of :
    Str
    → Str
    → List Str
    → Option Str
    → Option Str
    → Option (Option Str)
    → Option (Option Str)
    → Option (List Str)
    → Parsed
skill_of body path bad (some name) (some description) (some version) (some license)
      (some requires) =
    skill (record {
      name = name;
      description = description;
      version = version;
      license = license;
      requires = requires;
      body = body;
      path = path;
    })
skill_of body path bad _ _ _ _ _ = refused (bad_fields bad)

unfoldable pub check_fields : Frontmatter → Str → Str → Parsed
unfolding get is_name
check_fields out body path =
    let name = name_of (get (codes "name") out) in
    let description = description_of (get (codes "description") out) in
    let version = all_one (get (codes "version") out) in
    let license = all_one (get (codes "license") out) in
    let requires = requires_of (get (codes "requires") out) in
    skill_of body path
      (bad_if (codes "name") name
        ++ (bad_if (codes "description") description
            ++ (bad_if (codes "version") version
                ++ (bad_if (codes "license") license ++ bad_if (codes "requires") requires))))
      name description version license requires

abbrev pub with_body : Str → Str → Block → Parsed
with_body [] path (fields out) = refused no_body
with_body (c ∷ body) path (fields out) = check_fields out (c ∷ body) path
with_body body path (unreadable line) = refused (cannot_read line)

abbrev pub with_fence : Str → Option (Str × Str) → Parsed
with_fence path none = refused no_front_matter
with_fence path (some (block, rest)) =
    with_body (trim rest) path (parse_lines [] (split_lines block))

unfoldable pub parse_skill : Str → Str → Parsed
unfolding front_matter parse_lines split_lines trim check_fields
parse_skill source path = with_fence path (front_matter source)
