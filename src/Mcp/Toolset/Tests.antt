-- ===== src/Mcp/Toolset/Tests.antt =====
-- packages/mcp/src/toolset.ts: two servers, one of which does not answer, and instances of the
-- theorems.
use open_source_harness.Common.{
  ◌≡◌, refl, none, some, List, [], ◌∷◌, Str, codes, All, str_eq, is_space, starts_with,
}
use open_source_harness.Common.Dict.{get, put, member}
use open_source_harness.Mcp.Registry.{ToolApprovals, approve, hash_tool, status}
use open_source_harness.Mcp.Registry.Tests.{plain, search, lookup}
use open_source_harness.Mcp.Toolset.{
  McpToolsetOptions, McpToolset, no_tools, qualify, sanitise, is_plain, discover, add_tools,
  mark_all, mark_loaded, run_search, callable, rank, place_scored, scored, score_terms, has_text,
  split_words, ranked, ai_tools,
}
use open_source_harness.Mcp.Toolset.Search.{IsBestMatch, search-IsBestMatch}
use open_source_harness.Mcp.Toolset.Loaded.{IsOffered, ai_tools-IsOffered}
use open_source_harness.Mcp.Toolset.Invariant.{
  IsToolset, ToolsetCall, discovers, marks, searches, toolset_call, toolset_calls,
  toolset_calls-IsToolset,
}

abbrev same_case : Str → Str
same_case s = s

abbrev options : McpToolsetOptions
options = record { always_load = codes "fs__lookup" ∷ []; search_limit = some 1 }

abbrev approvals : ToolApprovals
approvals = approve plain [] (codes "fs") search 1

abbrev calls : List (ToolsetCall plain same_case)
calls =
    discovers ((codes "fs", some (search ∷ lookup ∷ [])) ∷ (codes "web", none) ∷ [])
    ∷ discovers ((codes "fs", some (search ∷ lookup ∷ [])) ∷ [])
    ∷ marks (codes "fs__gone")
    ∷ searches approvals (codes "find files")
    ∷ []

abbrev toolset : McpToolset
toolset = toolset_calls plain same_case options no_tools calls

sealed : Unit {0}
unfolding toolset_calls toolset_call discover add_tools mark_all mark_loaded run_search ranked
    callable rank place_scored scored score_terms has_text split_words status approve hash_tool get
    put member str_eq qualify sanitise is_plain is_space starts_with
sealed = tt

loads : toolset.loaded ≡ codes "fs__lookup" ∷ codes "fs__search" ∷ []
unfolding sealed
loads = refl

-- Names that differ only in a character that is replaced are one name.
meets : qualify (codes "fs") (codes "a.b") ≡ qualify (codes "fs") (codes "a_b")
unfolding sealed
meets = refl

search-IsBestMatch_example :
    IsBestMatch plain same_case approvals options toolset (codes "find files")
search-IsBestMatch_example =
    search-IsBestMatch plain same_case approvals options toolset (codes "find files")

ai_tools-IsOffered_example :
    All (IsOffered plain same_case approvals) (ai_tools plain same_case approvals toolset)
ai_tools-IsOffered_example = ai_tools-IsOffered plain same_case approvals toolset

-- the toolset behind the calls is sound
found_soundly : IsToolset toolset
found_soundly = toolset_calls-IsToolset plain same_case options calls
