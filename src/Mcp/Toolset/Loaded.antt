-- ===== src/Mcp/Toolset/Loaded.antt =====
-- packages/mcp/src/toolset.ts: which tools are registered with the SDK.
use open_source_harness.Common.{
  ◌≡◌, refl, inl, inr, true, Option, none, some, List, [], ◌∷◌, Str, str_eq, str_eq_sound, All,
  All-filter, Bool-cases,
}
use open_source_harness.Common.Dict.{put, member, values}
use open_source_harness.Mcp.Registry.{Hashing, ToolApprovals, status, approved}
use open_source_harness.Mcp.Toolset.{
  search_tool_name, DiscoveredTool, McpToolset, is_approved, callable, register, ai_tools,
}
use open_source_harness.Mcp.Toolset.Search.{approved_status}

module _ (hashing : Hashing) (lower : Str → Str) (approvals : ToolApprovals) where
  -- The entry is the search tool, or an approved tool under its name.
  abbrev pub IsOffered : Str × Option DiscoveredTool → Type 0
  IsOffered (name, none) = name ≡ search_tool_name
  IsOffered (name, some t) =
      (status hashing approvals t.server_id t.descriptor ≡ approved) × (name ≡ t.qualified_name)

  put-IsOffered :
      (t : DiscoveredTool) (tools : List (Str × Option DiscoveredTool))
      → status hashing approvals t.server_id t.descriptor ≡ approved
      → All IsOffered tools
      → All IsOffered (put t.qualified_name (some t) tools)
  unfolding put
  put-IsOffered t [] a o = ((a, refl), tt)
  put-IsOffered t ((name, w) ∷ tools) a (p, o) = elim (Bool-cases (str_eq name t.qualified_name)) [
    | inl same ↦ rw (same) ((a, str_eq_sound name t.qualified_name same), o)
    | inr differ ↦ rw (differ) (p, put-IsOffered t tools a o)
  ]

  register-IsOffered :
      (servers : List Str) (ts : List DiscoveredTool) (tools : List (Str × Option DiscoveredTool))
      → All
          (λ (t : DiscoveredTool).
            is_approved (status hashing approvals t.server_id t.descriptor) ≡ true)
          ts
      → All IsOffered tools
      → All IsOffered (register hashing lower approvals servers ts tools)
  unfolding register
  register-IsOffered servers [] tools ps o = o
  register-IsOffered servers (t ∷ ts) tools (a, ps) o =
      elim (Bool-cases (member t.server_id servers)) [
        | inl connected ↦ rw (connected) (
            register-IsOffered servers ts _ ps
              (put-IsOffered t tools (approved_status hashing lower approvals _ a) o))
        | inr lost ↦ rw (lost) (register-IsOffered servers ts tools ps o)
      ]

  -- What is registered with the SDK is the search tool and tools that are approved as they are now:
  -- one whose server has changed it since, or that nobody has approved, is not registered, loaded or
  -- not.
  pub ai_tools-IsOffered :
      (toolset : McpToolset) → All IsOffered (ai_tools hashing lower approvals toolset)
  unfolding ai_tools callable
  ai_tools-IsOffered toolset =
      register-IsOffered toolset.servers (callable hashing lower approvals toolset) _
        (All-filter
          (λ (t : DiscoveredTool). is_approved (status hashing approvals t.server_id t.descriptor))
          (values toolset.discovered))
        (refl, tt)
