-- ===== src/Mcp/Registry/Split.antt =====
-- packages/mcp/src/registry.ts, partition: a server's tools by what the user has agreed to.
use open_source_harness.Common.{
  concat_laws, ◌≡◌, refl, ◌∙◌, Bool, true, false, List, [], ◌∷◌, ◌++◌, Str, filter, if◌then◌else◌,
}
use open_source_harness.Mcp.Registry.{
  ToolDescriptor, ToolStatus, approved, changed, unapproved, Hashing, ToolApprovals, status,
  Partition, push_status, partition_from, partition,
}

abbrev pub is_status : ToolStatus → ToolStatus → Bool
is_status approved approved = true
is_status changed changed = true
is_status unapproved unapproved = true
is_status approved changed = false
is_status approved unapproved = false
is_status changed approved = false
is_status changed unapproved = false
is_status unapproved approved = false
is_status unapproved changed = false

module _ (hashing : Hashing) (pinned : ToolApprovals) (server_id : Str) where
  -- the tools that have a status, in the order of the server's list
  abbrev pub having : ToolStatus → List ToolDescriptor → List ToolDescriptor
  having s tools = filter (λ t. is_status (status hashing pinned server_id t) s) tools

  abbrev grown : Partition → List ToolDescriptor → Partition
  grown p tools = record {
    approved = p.approved ++ having approved tools;
    unapproved = p.unapproved ++ having unapproved tools;
    changed = p.changed ++ having changed tools;
  }

  abbrev having_with :
      ToolStatus → ToolDescriptor → ToolStatus → List ToolDescriptor → List ToolDescriptor
  having_with s t wanted rest = if is_status s wanted then t ∷ rest else rest

  grown-push :
      (s : ToolStatus) (t : ToolDescriptor) (tools : List ToolDescriptor) (p : Partition)
      → grown (push_status s t p) tools ≡ record {
        approved = p.approved ++ having_with s t approved (having approved tools);
        unapproved = p.unapproved ++ having_with s t unapproved (having unapproved tools);
        changed = p.changed ++ having_with s t changed (having changed tools);
      }
  grown-push approved t tools p = simp concat_laws refl
  grown-push changed t tools p = simp concat_laws refl
  grown-push unapproved t tools p = simp concat_laws refl

  partition_from-grown :
      (tools : List ToolDescriptor) (p : Partition)
      → partition_from hashing pinned server_id tools p ≡ grown p tools
  unfolding partition_from
  partition_from-grown [] p = simp concat_laws refl
  partition_from-grown (t ∷ tools) p =
      partition_from-grown tools (push_status (status hashing pinned server_id t) t p)
      ∙ grown-push (status hashing pinned server_id t) t tools p

  -- The split puts each tool of the list into exactly the part of its status, in the list's order.
  pub partition-splits :
      (tools : List ToolDescriptor)
      → partition hashing pinned server_id tools ≡ record {
        approved = having approved tools;
        unapproved = having unapproved tools;
        changed = having changed tools;
      }
  unfolding partition
  partition-splits tools =
      partition_from-grown tools (record { approved = []; unapproved = []; changed = [] })
