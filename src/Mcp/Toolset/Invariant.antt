-- ===== src/Mcp/Toolset/Invariant.antt =====
-- packages/mcp/src/toolset.ts: what holds of a toolset after any sequence of calls.
use open_source_harness.Common.{
  ltb, All-take, ◌≡◌, refl, sym, ap, ◌∙◌, inl, inr, true, Option, none, some, List, [], ◌∷◌, Str,
  str_eq, str_eq_sound, str_eq_refl, All, All-append, All-weaken, arith, Bool-cases,
}
use open_source_harness.Common.Dict.{put, member, member-keys-put, keys, values}
use open_source_harness.Mcp.Registry.{ToolDescriptor, Hashing, ToolApprovals}
use open_source_harness.Mcp.Toolset.{
  qualify, DiscoveredTool, McpToolsetOptions, McpToolset, no_tools, add_name, add_tools,
  mark_loaded, mark_all, discover, callable, split_words, scored, limit_of, Scored, ranked, search,
  load_each, run_search,
}
use open_source_harness.Mcp.Toolset.Search.{rank-All, All-kept, All-map}

-- Every discovered tool stands under its own name, and what is loaded was discovered.
pub record IsToolset (toolset : McpToolset) : Type 0 where
  pub named : All (λ (e : Str × DiscoveredTool). e.0 ≡ e.1.qualified_name) toolset.discovered
  pub known : All (λ name. member name (keys toolset.discovered) ≡ true) toolset.loaded

put-named :
    (k : Str) (t : DiscoveredTool) (d : List (Str × DiscoveredTool))
    → k ≡ t.qualified_name
    → All (λ (e : Str × DiscoveredTool). e.0 ≡ e.1.qualified_name) d
    → All (λ (e : Str × DiscoveredTool). e.0 ≡ e.1.qualified_name) (put k t d)
unfolding put
put-named k t [] e a = (e, tt)
put-named k t ((j, u) ∷ d) e (f, a) = elim (Bool-cases (str_eq j k)) [
  | inl same ↦ rw (same) (str_eq_sound j k same ∙ e, a)
  | inr differ ↦ rw (differ) (f, put-named k t d e a)
]

-- `add_tools` keeps what is there and names what it adds.
pub record Extends (d e : List (Str × DiscoveredTool)) : Type 0 where
  pub named :
      All (λ (e : Str × DiscoveredTool). e.0 ≡ e.1.qualified_name) d
      → All (λ (e : Str × DiscoveredTool). e.0 ≡ e.1.qualified_name) e
  pub keeps : (name : Str) → member name (keys d) ≡ true → member name (keys e) ≡ true

add_tools-Extends :
    (server_id : Str) (tools : List ToolDescriptor) (d : List (Str × DiscoveredTool))
    → Extends d (add_tools server_id tools d)
unfolding add_tools
add_tools-Extends server_id [] d = record { named = λ a. a; keeps = λ name h. h }
add_tools-Extends server_id (t ∷ tools) d =
    let added : DiscoveredTool = record {
      descriptor = t;
      server_id = server_id;
      qualified_name = qualify server_id t.name;
    } in
    let rest = add_tools-Extends server_id tools (put (qualify server_id t.name) added d) in
    record {
      named = λ a. rest.named (put-named (qualify server_id t.name) added d refl a);
      keeps = λ name h.
          let grown = member-keys-put (qualify server_id t.name) name added d in
          rest.keeps name (ground (arith, grown));
    }

add_name-All :
    (P : Str → Type 0) (name : Str) (names : List Str)
    → P name
    → All P names
    → All P (add_name name names)
add_name-All P name names p ps = elim (Bool-cases (member name names)) [
  | inl old ↦ rw (old) ps
  | inr new ↦ rw (new) (All-append P names (name ∷ []) ps (p, tt))
]

mark_loaded-IsToolset :
    (toolset : McpToolset) (name : Str) → IsToolset toolset → IsToolset (mark_loaded toolset name)
unfolding mark_loaded
mark_loaded-IsToolset toolset name w = elim (Bool-cases (member name (keys toolset.discovered))) [
  | inl there_ ↦
      rw (mark_loaded, there_)
        (record {
          named = w.named;
          known =
              add_name-All (λ n. member n (keys toolset.discovered) ≡ true) name toolset.loaded
                there_ w.known;
        })
  | inr missing ↦ rw (mark_loaded, missing) w
]

mark_all-IsToolset :
    (toolset : McpToolset) (names : List Str)
    → IsToolset toolset
    → IsToolset (mark_all toolset names)
unfolding mark_all
mark_all-IsToolset toolset [] w = w
mark_all-IsToolset toolset (name ∷ names) w =
    mark_all-IsToolset (mark_loaded toolset name) names (mark_loaded-IsToolset toolset name w)

discover-IsToolset :
    (options : McpToolsetOptions) (toolset : McpToolset)
    (servers : List (Str × Option (List ToolDescriptor)))
    → IsToolset toolset
    → IsToolset (discover options toolset servers)
unfolding discover
discover-IsToolset options toolset [] w = mark_all-IsToolset toolset options.always_load w
discover-IsToolset options toolset ((server_id, none) ∷ servers) w = record {
  named = w.named;
  known = w.known;
}
discover-IsToolset options toolset ((server_id, some tools) ∷ servers) w =
    let more = add_tools-Extends server_id tools toolset.discovered in
    discover-IsToolset options
      (record toolset {
        servers = add_name server_id toolset.servers;
        discovered = add_tools server_id tools toolset.discovered;
      })
      servers
      (record {
        named = more.named w.named;
        known =
            All-weaken (λ name. member name (keys toolset.discovered) ≡ true)
              (λ name. member name (keys (add_tools server_id tools toolset.discovered)) ≡ true)
              more.keeps toolset.loaded w.known;
      })

-- A discovered tool is found under its name.
values_known :
    (d : List (Str × DiscoveredTool))
    → All (λ (e : Str × DiscoveredTool). e.0 ≡ e.1.qualified_name) d
    → All (λ (t : DiscoveredTool). member t.qualified_name (keys d) ≡ true) (values d)
unfolding member
values_known [] a = tt
values_known ((k, t) ∷ d) (e, a) = (
  (let same = ap (str_eq k) (sym e) ∙ str_eq_refl k in ground (arith, same)),
  All-weaken (λ (u : DiscoveredTool). member u.qualified_name (keys d) ≡ true)
      (λ (u : DiscoveredTool). member u.qualified_name (k ∷ keys d) ≡ true)
      (λ u h. ground (arith, h)) (values d) (values_known d a),
)

module _ (hashing : Hashing) (lower : Str → Str) where
  load_each-All :
      (P : Str → Type 0) (approvals : ToolApprovals) (ts : List DiscoveredTool) (names : List Str)
      → All (λ (t : DiscoveredTool). P t.qualified_name) ts
      → All P names
      → All P (load_each hashing lower approvals ts names)
  load_each-All P approvals [] names ps qs = qs
  load_each-All P approvals (t ∷ ts) names (p, ps) qs =
      load_each-All P approvals ts (add_name t.qualified_name names) ps
        (add_name-All P t.qualified_name names p qs)

  run_search-IsToolset :
      (approvals : ToolApprovals) (options : McpToolsetOptions) (toolset : McpToolset) (query : Str)
      → IsToolset toolset
      → IsToolset (run_search hashing lower approvals options toolset query)
  unfolding run_search search ranked callable scored
  run_search-IsToolset approvals options toolset query w =
      let known =
        λ (t : DiscoveredTool). member t.qualified_name (keys toolset.discovered) ≡ true in
      let known_match = λ (s : Scored). known s.candidate in
      let terms = split_words [] (lower query) in
      record {
        named = w.named;
        known =
            load_each-All (λ name. member name (keys toolset.discovered) ≡ true) approvals _
              toolset.loaded
              (All-map known (λ (s : Scored). s.candidate) _
                (All-take known_match (limit_of options.search_limit) _ (
                  rank-All known_match _ (
                    All-kept known_match (λ (s : Scored). ltb 0 s.score) _
                      (All-map known_match (scored hashing lower approvals terms)
                        (callable hashing lower approvals toolset)
                        (All-kept known _ (values toolset.discovered)
                          (values_known toolset.discovered w.named)))))))
              w.known;
      }

  -- The calls that change a toolset; approvals may change in between.
  pub data ToolsetCall : Type 0 where
    discovers : List (Str × Option (List ToolDescriptor)) → ToolsetCall
    marks : Str → ToolsetCall
    searches : ToolApprovals → Str → ToolsetCall

  unfoldable pub toolset_call : McpToolsetOptions → McpToolset → ToolsetCall → McpToolset
  unfolding discover mark_loaded run_search
  toolset_call options toolset (discovers servers) = discover options toolset servers
  toolset_call options toolset (marks name) = mark_loaded toolset name
  toolset_call options toolset (searches approvals query) =
      run_search hashing lower approvals options toolset query

  unfoldable pub toolset_calls : McpToolsetOptions → McpToolset → List ToolsetCall → McpToolset
  unfolding toolset_call
  toolset_calls options toolset [] = toolset
  toolset_calls options toolset (call ∷ calls) =
      toolset_calls options (toolset_call options toolset call) calls

  run-IsToolset :
      (options : McpToolsetOptions) (toolset : McpToolset) (calls : List ToolsetCall)
      → IsToolset toolset
      → IsToolset (toolset_calls options toolset calls)
  unfolding toolset_calls
  run-IsToolset options toolset [] w = w
  run-IsToolset options toolset (discovers servers ∷ calls) w =
      run-IsToolset options (discover options toolset servers) calls
        (discover-IsToolset options toolset servers w)
  run-IsToolset options toolset (marks name ∷ calls) w =
      run-IsToolset options (mark_loaded toolset name) calls (mark_loaded-IsToolset toolset name w)
  run-IsToolset options toolset (searches approvals query ∷ calls) w =
      run-IsToolset options (run_search hashing lower approvals options toolset query) calls
        (run_search-IsToolset approvals options toolset query w)

  -- After any sequence of discoveries, searches and markings, those of a server that does not answer
  -- included, every discovered tool stands under its own name and every name that is loaded is that
  -- of a discovered tool.
  pub toolset_calls-IsToolset :
      (options : McpToolsetOptions) (calls : List ToolsetCall)
      → IsToolset (toolset_calls options no_tools calls)
  toolset_calls-IsToolset options calls =
      run-IsToolset options no_tools calls (record { named = tt; known = tt })
