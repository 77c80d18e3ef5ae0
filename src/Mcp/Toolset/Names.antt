-- ===== src/Mcp/Toolset/Names.antt =====
-- packages/mcp/src/toolset.ts, qualify: the names under which the tools of servers are offered.
use open_source_harness.Common.{
  ◌≡◌, ◌≢◌, refl, sym, ap, ◌∙◌, Bool, true, false, ◌&&◌, ◌||◌, [], ◌∷◌, ◌++◌, Str, codes, ◌==◌, All,
  All-append, arith, ℕ,
}
use open_source_harness.Mcp.Toolset.{search_tool_name, is_plain, sanitise_unit, sanitise, qualify}

-- two underscores in a row
abbrev has_separator : Str → Bool
has_separator [] = false
has_separator (c ∷ []) = false
has_separator (c ∷ d ∷ s) = (c == b'_' && d == b'_') || has_separator (d ∷ s)

separated : (xs ys : Str) → has_separator (xs ++ codes "__" ++ ys) ≡ true
separated [] ys = refl
separated (c ∷ []) ys = ground arith
separated (c ∷ d ∷ xs) ys = ground (arith, separated (d ∷ xs) ys)

true-ne-false : true ≢ false
true-ne-false h = cc

sanitised_unit : (c : ℕ) → is_plain (sanitise_unit c) ≡ true
unfolding is_plain
sanitised_unit c = ground arith

sanitise-plain : (value : Str) → All (λ c. is_plain c ≡ true) (sanitise value)
unfolding sanitise
sanitise-plain [] = tt
sanitise-plain (c ∷ value) = (sanitised_unit c, sanitise-plain value)

-- Whatever a server calls itself and its tools, the name that is offered has only letters, digits,
-- underscores and dashes, and is never that of the search tool.
pub qualify_is_safe :
    (server_id tool_name : Str)
    → All (λ c. is_plain c ≡ true) (qualify server_id tool_name)
      × (qualify server_id tool_name ≢ search_tool_name)
unfolding qualify is_plain search_tool_name
qualify_is_safe server_id tool_name = (
  All-append (λ c. is_plain c ≡ true) (sanitise server_id ++ codes "__") (sanitise tool_name)
      (All-append (λ c. is_plain c ≡ true) (sanitise server_id) (codes "__")
        (sanitise-plain server_id) (refl, (refl, tt)))
      (sanitise-plain tool_name),
  λ same.
      true-ne-false
        (sym (separated (sanitise server_id) (sanitise tool_name)) ∙ ap has_separator same),
)
