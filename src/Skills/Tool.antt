-- ===== src/Skills/Tool.antt =====
-- packages/skills/src/tools.ts: the tool that opens a skill. What it adds in words for the model about tools
-- that are missing is left out, and `onLoad` only reports.
pub mod Opens
use open_source_harness.Common.{Option, none, some, not, List, [], ◌∷◌, Str, filter}
use open_source_harness.Common.Dict.{get, put, keys, member}
use open_source_harness.Skills.Parse.{ParsedSkill}

-- name, instructions and the required tools that are not there; or the names that there are
pub data Opened : Type 0 where
  opened : Str → Str → List Str → Opened
  no_skill : List Str → Opened

-- `new Map(skills.map((skill) => [skill.name, skill]))`
unfoldable pub by_name : List (Str × ParsedSkill) → List ParsedSkill → List (Str × ParsedSkill)
unfolding put
by_name map [] = map
by_name map (s ∷ skills) = by_name (put s.name s map) skills

abbrev pub missing_of : Option (List Str) → List Str → List Str
missing_of none requires = []
missing_of (some available) requires = filter (λ tool. not (member tool available)) requires

abbrev pub opened_of : List Str → Option (List Str) → Option ParsedSkill → Opened
opened_of names available none = no_skill names
opened_of names available (some s) = opened s.name s.body (missing_of available s.requires)

unfoldable pub open_skill : List ParsedSkill → Option (List Str) → Str → Opened
unfolding by_name get member
open_skill skills available name =
    opened_of (keys (by_name [] skills)) available (get name (by_name [] skills))
