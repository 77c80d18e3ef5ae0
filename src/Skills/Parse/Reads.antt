-- ===== src/Skills/Parse/Reads.antt =====
-- packages/skills/src/parse.ts: a file in the documented shape is read as what it says.
use open_source_harness.Common.{
  ℕ, ◌≡◌, ◌≢◌, refl, sym, ap, ◌∙◌, true, false, Option, none, some, List, [], ◌∷◌, ◌++◌, Str, codes,
  str_eq, starts_with, is_space, trim, trim_start, length, All, All-append, append-nil, arith, ◌==◌,
  leb,
}
use open_source_harness.Common.Dict.{get, put}
use open_source_harness.Skills.Parse.{
  skill, is_name, check_fields, parse_skill, with_fence, with_body,
}
use open_source_harness.Skills.Parse.Lines.{
  after_newline, after_dashes, drop_unit, closing, with_unit, find_fence, front_matter, push_unit,
  split_lines, between, unquote, list_item, one, split_colon, read_value, is_skipped, parse_lines,
  fields, non_empty,
}

-- no line end
abbrev pub IsLine : Str → Type 0
IsLine s = All (λ c. (c == 10 ≡ false) × (c == 13 ≡ false)) s

abbrev with_prefix : Str → Option (Str × Str) → Option (Str × Str)
with_prefix [] o = o
with_prefix (c ∷ s) o = with_unit c (with_prefix s o)

no_closing : (c : ℕ) (s : Str) → c == 10 ≡ false → c == 13 ≡ false → closing (c ∷ s) ≡ none
unfolding closing after_newline
no_closing c [] n r = rw (n) refl
no_closing c (d ∷ s) n r = rw (n) (rw (r) refl)

-- The search passes over a line.
find_fence-IsLine :
    (line rest : Str) → IsLine line → find_fence (line ++ rest) ≡ with_prefix line (find_fence rest)
unfolding find_fence
find_fence-IsLine [] rest h = refl
find_fence-IsLine (c ∷ line) rest ((n, r), h) =
    rw (no_closing c (line ++ rest) n r) (ap (with_unit c) (find_fence-IsLine line rest h))

with_prefix-some :
    (line block rest : Str) → with_prefix line (some (block, rest)) ≡ some (line ++ block, rest)
with_prefix-some [] block rest = refl
with_prefix-some (c ∷ line) block rest = ap (with_unit c) (with_prefix-some line block rest)

-- A line is the first of the lines that it begins.
split_lines-IsLine :
    (line rest : Str) → IsLine line → split_lines (line ++ 10 ∷ rest) ≡ line ∷ split_lines rest
unfolding split_lines
split_lines-IsLine [] rest h = refl
split_lines-IsLine (c ∷ line) rest ((n, r), h) =
    rw (n) (rw (r) (ap (push_unit c) (split_lines-IsLine line rest h)))

split_lines_last : (line : Str) → IsLine line → split_lines line ≡ line ∷ []
unfolding split_lines
split_lines_last [] h = refl
split_lines_last (c ∷ line) ((n, r), h) =
    rw (n) (rw (r) (ap (push_unit c) (split_lines_last line h)))

-- A value that stands for itself: one line, with no white space about it, no quotes and no brackets.
pub record IsPlainValue (value : Str) : Type 0 where
  pub line : IsLine value
  pub trimmed : trim value ≡ value
  pub bare : unquote value ≡ value
  pub no_list : between (codes "[") (codes "]") value ≡ false

-- the file
abbrev pub skill_file : Str → Str → Str → Str
skill_file name description body =
    codes "---"
    ++ (10 ∷ (codes "name: " ++ name)
        ++ (10 ∷ (codes "description: " ++ description) ++ (10 ∷ codes "---" ++ (10 ∷ body))))

module _ (name description body : Str) (n : IsLine name) (d : IsLine description) where
  name_field : IsLine (codes "name: " ++ name)
  name_field = (
    (refl, refl),
    ((refl, refl), ((refl, refl), ((refl, refl), ((refl, refl), ((refl, refl), n))))),
  )

  description_field : IsLine (codes "description: " ++ description)
  description_field = All-append _ (codes "description: ") description (ground arith) d

  closed : find_fence (10 ∷ codes "---" ++ (10 ∷ body)) ≡ some ([], body)
  unfolding find_fence closing after_newline after_dashes drop_unit starts_with
  closed = refl

  second_field :
      find_fence (10 ∷ (codes "description: " ++ description) ++ (10 ∷ codes "---" ++ (10 ∷ body)))
      ≡ some (10 ∷ (codes "description: " ++ description), body)
  unfolding find_fence closing after_newline after_dashes starts_with
  second_field = ap (with_unit 10) (
      find_fence-IsLine (codes "description: " ++ description) (10 ∷ codes "---" ++ (10 ∷ body))
        description_field
      ∙ ap (with_prefix (codes "description: " ++ description)) closed
      ∙ with_prefix-some (codes "description: " ++ description) [] body
      ∙ ap (λ (s : Str). some (s, body)) (append-nil (codes "description: " ++ description)))

  fence_found :
      front_matter (skill_file name description body)
      ≡ some ((codes "name: " ++ name) ++ (10 ∷ (codes "description: " ++ description)), body)
  unfolding front_matter after_dashes after_newline starts_with
  fence_found =
      find_fence-IsLine (codes "name: " ++ name)
        (10 ∷ (codes "description: " ++ description) ++ (10 ∷ codes "---" ++ (10 ∷ body)))
        name_field
      ∙ ap (with_prefix (codes "name: " ++ name)) second_field
      ∙ with_prefix-some (codes "name: " ++ name) (10 ∷ (codes "description: " ++ description)) body

  lines_found :
      split_lines ((codes "name: " ++ name) ++ (10 ∷ (codes "description: " ++ description)))
      ≡ (codes "name: " ++ name) ∷ (codes "description: " ++ description) ∷ []
  lines_found =
      split_lines-IsLine (codes "name: " ++ name) (codes "description: " ++ description) name_field
      ∙ ap (◌∷◌ (codes "name: " ++ name))
          (split_lines_last (codes "description: " ++ description) description_field)

read_plain :
    (c : ℕ) (s : Str) (later : List Str)
    → IsPlainValue (c ∷ s)
    → read_value (c ∷ s) later ≡ one (c ∷ s)
unfolding read_value
read_plain c s later p = rw (p.no_list) (ap one p.bare)

read_value-IsPlainValue :
    (value : Str) (later : List Str)
    → value ≢ []
    → IsPlainValue value
    → read_value (trim (32 ∷ value)) later ≡ one value
unfolding trim trim_start is_space
read_value-IsPlainValue [] later ne p = absurd (ne refl)
read_value-IsPlainValue (c ∷ s) later ne p =
    ap (λ v. read_value v later) p.trimmed ∙ read_plain c s later p

has_text : (s : Str) → non_empty s ≡ true → s ≢ []
has_text [] h e = cc
has_text (c ∷ s) h e = ground (arith, e)

name_has_text : (s : Str) → is_name false s ≡ true → s ≢ []
unfolding is_name
name_has_text [] h e = cc
name_has_text (c ∷ s) h e = ground (arith, e)

module _ (name description body path : Str) (n : IsPlainValue name) (d : IsPlainValue description)
    (valid : is_name false name ≡ true) (short : leb (length name) 64 ≡ true)
    (some_text : non_empty description ≡ true) (fits : leb (length description) 1_024 ≡ true)
    (trimmed : trim body ≡ body) (some_body : non_empty body ≡ true) where
  fields_found :
      parse_lines [] ((codes "name: " ++ name) ∷ (codes "description: " ++ description) ∷ [])
      ≡ fields ((codes "name", one name) ∷ (codes "description", one description) ∷ [])
  unfolding parse_lines is_skipped list_item trim_start is_space starts_with split_colon trim put
      str_eq
  fields_found =
      ap
        (λ v.
          fields (
            (codes "name", v)
            ∷ (codes "description", read_value (trim (32 ∷ description)) [])
            ∷ []))
        (read_value-IsPlainValue name ((codes "description: " ++ description) ∷ [])
          (name_has_text name valid) n)
      ∙ ap (λ v. fields ((codes "name", one name) ∷ (codes "description", v) ∷ []))
          (read_value-IsPlainValue description [] (has_text description some_text) d)

  checked :
      (b : Str)
      → b ≡ body
      → with_body b path
          (fields ((codes "name", one name) ∷ (codes "description", one description) ∷ []))
        ≡ skill (record {
          name = name;
          description = description;
          version = none;
          license = none;
          requires = [];
          body = body;
          path = path;
        })
  unfolding check_fields get str_eq
  checked [] same = absurd (has_text body some_body (sym same))
  checked (c ∷ b) same = rw (short) (rw (valid) (rw (some_text) (rw (fits) (rw (same) refl))))

  -- A file that states a name and a description between fences, and then a body that is not empty and
  -- has no white space about it, is read as the skill that it says. The two values are plain (one line,
  -- no white space about them, no quotes and no brackets round them), the name has at most 64 units and
  -- is of lower-case words between single hyphens, and the description has from 1 to 1,024.
  pub parse_skill-skill_file :
      parse_skill (skill_file name description body) path
      ≡ skill (record {
        name = name;
        description = description;
        version = none;
        license = none;
        requires = [];
        body = body;
        path = path;
      })
  unfolding parse_skill
  parse_skill-skill_file =
      ap (with_fence path) (fence_found name description body n.line d.line)
      ∙ ap (λ lines. with_body (trim body) path (parse_lines [] lines))
          (lines_found name description body n.line d.line)
      ∙ ap (with_body (trim body) path) fields_found
      ∙ checked (trim body) trimmed
