-- ===== src/Mcp/Toolset.antt =====
-- packages/mcp/src/toolset.ts: the tools of connected servers, those that are loaded, and the search
-- over them. What a server lists is an argument, `none` where the request fails; `lower` is
-- toLowerCase. A tool of the SDK is the entry that it is built from.
pub mod Names
pub mod Terms
pub mod Words
pub mod Search
pub mod Loaded
pub mod Invariant
pub mod Tests
use open_source_harness.Common.{
  ℕ, ◌+◌, Bool, true, false, not, ◌&&◌, ◌||◌, Option, none, some, List, [], ◌∷◌, ◌++◌, Str, codes,
  ◌==◌, leb, ltb, str_eq, starts_with, is_space, filter, map, take, if◌then◌else◌,
}
use open_source_harness.Common.Dict.{get, put, member, keys, values}
use open_source_harness.Mcp.Registry.{
  ToolDescriptor, ToolStatus, approved, unapproved, changed, Hashing, ToolApprovals, status,
  or_empty,
}

unfoldable pub search_tool_name : Str
search_tool_name = codes "search_tools"

-- `[a-zA-Z0-9_-]`
unfoldable pub is_plain : ℕ → Bool
is_plain c =
    (leb 97 c && leb c 122)
    || (leb 65 c && leb c 90)
    || (leb 48 c && leb c 57)
    || c == b'_'
    || c == b'-'

abbrev pub sanitise_unit : ℕ → ℕ
sanitise_unit c = if is_plain c then c else b'_'

unfoldable pub sanitise : Str → Str
unfolding is_plain
sanitise value = map sanitise_unit value

unfoldable pub qualify : Str → Str → Str
unfolding sanitise
qualify server_id tool_name = sanitise server_id ++ codes "__" ++ sanitise tool_name

pub record DiscoveredTool : Type 0 where
  pub descriptor : ToolDescriptor
  pub server_id : Str
  pub qualified_name : Str

pub record McpToolsetOptions : Type 0 where
  pub always_load : List Str
  pub search_limit : Option ℕ

pub record McpToolset : Type 0 where
  pub discovered : List (Str × DiscoveredTool)
  pub loaded : List Str
  pub servers : List Str

abbrev pub no_tools : McpToolset
no_tools = record { discovered = []; loaded = []; servers = [] }

-- `set.add(k)`
abbrev pub add_name : Str → List Str → List Str
add_name k names = if member k names then names else names ++ k ∷ []

unfoldable pub add_tools :
    Str → List ToolDescriptor → List (Str × DiscoveredTool) → List (Str × DiscoveredTool)
unfolding qualify put
add_tools server_id [] discovered = discovered
add_tools server_id (t ∷ tools) discovered = add_tools server_id tools (
    put (qualify server_id t.name)
      (record { descriptor = t; server_id = server_id; qualified_name = qualify server_id t.name })
      discovered)

unfoldable pub mark_loaded : McpToolset → Str → McpToolset
unfolding member
mark_loaded toolset name =
    if member name (keys toolset.discovered)
    then record toolset { loaded = add_name name toolset.loaded }
    else toolset

unfoldable pub mark_all : McpToolset → List Str → McpToolset
unfolding mark_loaded
mark_all toolset [] = toolset
mark_all toolset (name ∷ names) = mark_all (mark_loaded toolset name) names

-- The loop over the servers, and what comes behind it; a listing that fails ends it.
unfoldable pub discover :
    McpToolsetOptions → McpToolset → List (Str × Option (List ToolDescriptor)) → McpToolset
unfolding add_tools mark_all
discover options toolset [] = mark_all toolset options.always_load
discover options toolset ((server_id, none) ∷ servers) = record toolset {
  servers = add_name server_id toolset.servers;
}
discover options toolset ((server_id, some tools) ∷ servers) =
    discover options
      (record toolset {
        servers = add_name server_id toolset.servers;
        discovered = add_tools server_id tools toolset.discovered;
      })
      servers

abbrev pub active_tool_names : McpToolset → List Str
active_tool_names toolset = search_tool_name ∷ toolset.loaded

abbrev pub is_approved : ToolStatus → Bool
is_approved approved = true
is_approved unapproved = false
is_approved changed = false

-- `s.includes(t)`
unfoldable pub has_text : Str → Str → Bool
has_text [] t = starts_with [] t
has_text (c ∷ s) t = starts_with (c ∷ s) t || has_text s t

abbrev pub close_word : Str → List Str → List Str
close_word [] words = words
close_word (c ∷ word) words = (c ∷ word) ∷ words

-- `s.split(/\s+/).filter(Boolean)` from the letters of the word that is open
unfoldable pub split_words : Str → Str → List Str
unfolding is_space
split_words word [] = close_word word []
split_words word (c ∷ s) =
    let next = split_words [] s in
    let longer = split_words (word ++ c ∷ []) s in
    if is_space c then close_word word next else longer

-- the `reduce`
unfoldable pub score_terms : Str → List Str → ℕ
unfolding has_text
score_terms haystack [] = 0
score_terms haystack (term ∷ terms) =
    let rest = score_terms haystack terms in if has_text haystack term then 1 + rest else rest

pub record Scored : Type 0 where
  pub candidate : DiscoveredTool
  pub score : ℕ

-- one step of the sort by falling scores, which is stable
unfoldable pub place_scored : Scored → List Scored → List Scored
place_scored s [] = s ∷ []
place_scored s (t ∷ ts) =
    let rest = place_scored s ts in if leb t.score s.score then s ∷ t ∷ ts else t ∷ rest

unfoldable pub rank : List Scored → List Scored
unfolding place_scored
rank [] = []
rank (s ∷ ss) = place_scored s (rank ss)

abbrev pub limit_of : Option ℕ → ℕ
limit_of none = 8
limit_of (some n) = n

module _ (hashing : Hashing) (lower : Str → Str) (approvals : ToolApprovals) where
  unfoldable pub callable : McpToolset → List DiscoveredTool
  unfolding status
  callable toolset =
      filter
        (λ (t : DiscoveredTool). is_approved (status hashing approvals t.server_id t.descriptor))
        (values toolset.discovered)

  unfoldable pub needing_approval : McpToolset → List DiscoveredTool
  unfolding status
  needing_approval toolset =
      filter
        (λ (t : DiscoveredTool).
          not (is_approved (status hashing approvals t.server_id t.descriptor)))
        (values toolset.discovered)

  unfoldable pub scored : List Str → DiscoveredTool → Scored
  unfolding score_terms
  scored terms t = record {
    candidate = t;
    score =
        score_terms (lower (t.descriptor.name ++ codes " " ++ or_empty t.descriptor.description))
          terms;
  }

  -- what `search` returns, with the scores
  unfoldable pub ranked : McpToolsetOptions → McpToolset → Str → List Scored
  unfolding callable rank scored split_words
  ranked options toolset query = take (limit_of options.search_limit) (
      rank (
        filter (λ (s : Scored). ltb 0 s.score)
          (map (scored (split_words [] (lower query))) (callable toolset))))

  unfoldable pub search : McpToolsetOptions → McpToolset → Str → List DiscoveredTool
  unfolding ranked
  search options toolset query = map (λ (s : Scored). s.candidate) (ranked options toolset query)

  abbrev pub load_each : List DiscoveredTool → List Str → List Str
  load_each [] loaded = loaded
  load_each (t ∷ ts) loaded = load_each ts (add_name t.qualified_name loaded)

  -- `execute` of the search tool
  unfoldable pub run_search : McpToolsetOptions → McpToolset → Str → McpToolset
  unfolding search member
  run_search options toolset query = record toolset {
    loaded = load_each (search options toolset query) toolset.loaded;
  }

  -- `tools[name] = …` for the tools of the servers, behind the search tool
  unfoldable pub register :
      List Str
      → List DiscoveredTool
      → List (Str × Option DiscoveredTool)
      → List (Str × Option DiscoveredTool)
  unfolding member put
  register servers [] tools = tools
  register servers (t ∷ ts) tools =
      register servers ts
        (if member t.server_id servers then put t.qualified_name (some t) tools else tools)

  -- the search tool is `none`
  unfoldable pub ai_tools : McpToolset → List (Str × Option DiscoveredTool)
  unfolding register callable
  ai_tools toolset = register toolset.servers (callable toolset) ((search_tool_name, none) ∷ [])
