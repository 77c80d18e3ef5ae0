-- ===== src/Skills/Parse/Lines.antt =====
-- packages/skills/src/parse.ts: the fences of a SKILL.md and the lines between them.
use open_source_harness.Common.{
  ℕ, Bool, true, false, not, ◌&&◌, ◌||◌, Option, none, some, List, [], ◌∷◌, Str, codes, starts_with,
  ends_with, is_space, trim, trim_start, filter, map, drop, ◌==◌, if◌then◌else◌,
}
use open_source_harness.Common.Monad.{◌>>=◌}
use open_source_harness.Common.Dict.{put}

-- `/^\r?\n/` and `/^---/`: what follows them.
unfoldable pub after_newline : Str → Option Str
after_newline [] = none
after_newline (c ∷ []) = if c == 10 then some [] else none
after_newline (c ∷ d ∷ s) =
    if c == 10 then some (d ∷ s) else if c == 13 then if d == 10 then some s else none else none

unfoldable pub after_dashes : Str → Option Str
unfolding starts_with
after_dashes s = if starts_with s (codes "---") then some (drop 3 s) else none

-- `/\r?\n?/`
unfoldable pub drop_unit : ℕ → Str → Str
drop_unit u [] = []
drop_unit u (c ∷ s) = if c == u then s else c ∷ s

unfoldable pub closing : Str → Option Str
unfolding after_newline after_dashes drop_unit
closing s = do
  dashes ← after_newline s
  rest ← after_dashes dashes
  some (drop_unit 10 (drop_unit 13 rest))

abbrev pub with_unit : ℕ → Option (Str × Str) → Option (Str × Str)
with_unit c none = none
with_unit c (some (block, rest)) = some (c ∷ block, rest)

abbrev pub fence_or : ℕ → Option (Str × Str) → Option Str → Option (Str × Str)
fence_or c later none = with_unit c later
fence_or c later (some rest) = some ([], rest)

-- the shortest block before a closing fence, and what follows the fence
unfoldable pub find_fence : Str → Option (Str × Str)
unfolding closing
find_fence [] = none
find_fence (c ∷ s) = let later = find_fence s in fence_or c later (closing (c ∷ s))

-- `FENCE.exec(source)`
unfoldable pub front_matter : Str → Option (Str × Str)
unfolding find_fence after_newline after_dashes
front_matter source = do
  opened ← after_dashes source
  block ← after_newline opened
  find_fence block

abbrev pub push_unit : ℕ → List Str → List Str
push_unit c [] = (c ∷ []) ∷ []
push_unit c (part ∷ parts) = (c ∷ part) ∷ parts

-- `block.split(/\r?\n/)`
unfoldable pub split_lines : Str → List Str
unfolding starts_with
split_lines [] = [] ∷ []
split_lines (c ∷ s) =
    let rest = split_lines s in
    if c == 10
    then [] ∷ rest
    else if (c == 13) && starts_with s (10 ∷ [])
    then rest
    else push_unit c rest

-- `text.split(',')`
unfoldable pub split_commas : Str → List Str
split_commas [] = [] ∷ []
split_commas (c ∷ s) =
    let rest = split_commas s in if c == b',' then [] ∷ rest else push_unit c rest

-- `text.slice(1, -1)`
abbrev pub drop_last : Str → Str
drop_last [] = []
drop_last (c ∷ []) = []
drop_last (c ∷ d ∷ s) = c ∷ drop_last (d ∷ s)

abbrev pub between : Str → Str → Str → Bool
between opener closer s = starts_with s opener && ends_with s closer

unfoldable pub unquote : Str → Str
unfolding starts_with ends_with
unquote value =
    if between (codes "\"") (codes "\"") value || between (codes "'") (codes "'") value
    then drop_last (drop 1 value)
    else value

-- `/^\s*-\s+/`
abbrev pub after_dash : Str → Option Str
after_dash (c ∷ d ∷ s) = if (c == b'-') && is_space d then some (d ∷ s) else none
after_dash _ = none

unfoldable pub list_item : Str → Option Str
unfolding trim_start is_space
list_item line = after_dash (trim_start line)

abbrev pub non_empty : Str → Bool
non_empty [] = false
non_empty (c ∷ s) = true

-- the items of the block list that the lines begin with
unfoldable pub leading_items : List Str → List Str
unfolding list_item unquote trim
leading_items [] = []
leading_items (line ∷ lines) =
    let more = leading_items lines in
    elim (list_item line) [ none ↦ [] | some item ↦ unquote (trim item) ∷ more ]

pub data Value : Type 0 where
  one : Str → Value
  many : List Str → Value

abbrev pub Frontmatter : Type 0
Frontmatter = List (Str × Value)

-- `line.indexOf(':')`, and the two sides of it
unfoldable pub split_colon : Str → Option (Str × Str)
split_colon [] = none
split_colon (c ∷ s) =
    let rest = split_colon s in if c == b':' then some ([], s) else with_unit c rest

unfoldable pub read_value : Str → List Str → Value
unfolding leading_items split_commas unquote trim
read_value [] later = many (leading_items later)
read_value (c ∷ raw) later =
    if between (codes "[") (codes "]") (c ∷ raw)
    then many (filter non_empty (map (λ v. unquote (trim v)) (split_commas (drop_last raw))))
    else one (unquote (c ∷ raw))

abbrev pub is_some : Option Str → Bool
is_some none = false
is_some (some item) = true

-- `!line.trim() || line.trimStart().startsWith('#')`, or an item of a list
unfoldable pub is_skipped : Str → Bool
unfolding list_item trim_start starts_with
is_skipped line =
    not (non_empty (trim_start line))
    || starts_with (trim_start line) (codes "#")
    || is_some (list_item line)

-- `parseFrontmatter`, from the fields so far. The items that a key with no value takes are skipped like
-- any others. The left side of the sum is a line that cannot be read.
pub data Block : Type 0 where
  unreadable : Str → Block
  fields : Frontmatter → Block

abbrev pub set_field : Option (Str × Str) → List Str → Frontmatter → Frontmatter
set_field none later out = out
set_field (some (key, raw)) later out = put (trim key) (read_value (trim raw) later) out

abbrev pub read_or : Str → Block → Option (Str × Str) → Block
read_or line read none = unreadable (trim line)
read_or line read (some sides) = read

unfoldable pub parse_lines : Frontmatter → List Str → Block
unfolding is_skipped split_colon read_value put trim
parse_lines out [] = fields out
parse_lines out (line ∷ lines) =
    let skipped = parse_lines out lines in
    let read = parse_lines (set_field (split_colon line) lines out) lines in
    if is_skipped line then skipped else read_or line read (split_colon line)
