-- ===== src/Mcp/Registry.antt =====
-- packages/mcp/src/registry.ts: which tools of a server a human has approved.
-- What the source calls is a parameter: JSON.stringify of the surface of a tool, the digest, and
-- the comparison of `localeCompare`. The clock is an argument.
pub mod Drift
pub mod Split
pub mod Canonical
pub mod Tests
use open_source_harness.Common.{
  ℕ, Bool, true, false, Option, none, some, List, [], ◌∷◌, ◌++◌, Str, codes, str_eq, if◌then◌else◌,
}
use open_source_harness.Common.Dict.{get, put, remove, values}

-- A JSON value; a number, a boolean or a null is held by reference.
mutual
  pub data Json : Type 0 where
    scalar : ℕ → Json
    string : Str → Json
    array : JsonItems → Json
    object : JsonEntries → Json

  pub data JsonItems : Type 0 where
    end_items : JsonItems
    item : Json → JsonItems → JsonItems

  pub data JsonEntries : Type 0 where
    end_entries : JsonEntries
    entry : Str → Json → JsonEntries → JsonEntries

-- `undefined` for a schema that is absent
pub record ToolDescriptor : Type 0 where
  pub name : Str
  pub description : Option Str
  pub input_schema : Option Json

pub data ToolStatus : Type 0 where
  approved unapproved changed : ToolStatus

pub record PinnedTool : Type 0 where
  pub server_id : Str
  pub name : Str
  pub hash : Str
  pub approved_at : ℕ

pub record Hashing : Type 0 where
  pub stringify : Str → Str → Option Json → Str
  pub digest : Str → Str
  -- `a.localeCompare(b) <= 0`
  pub precedes : Str → Str → Bool

abbrev pub or_empty : Option Str → Str
or_empty none = []
or_empty (some s) = s

abbrev pub key : Str → Str → Str
key server_id name = server_id ++ codes " " ++ name

-- `pinned`, by its keys
abbrev pub ToolApprovals : Type 0
ToolApprovals = List (Str × PinnedTool)

-- The calls that change the pins, in the order in which they happen.
pub data PinCall : Type 0 where
  approves : Str → ToolDescriptor → ℕ → PinCall
  revokes : Str → Str → PinCall

abbrev pub call_key : PinCall → Str
call_key (approves server_id t now) = key server_id t.name
call_key (revokes server_id name) = key server_id name

pub record Partition : Type 0 where
  pub approved : List ToolDescriptor
  pub unapproved : List ToolDescriptor
  pub changed : List ToolDescriptor

abbrev pub push_status : ToolStatus → ToolDescriptor → Partition → Partition
push_status approved t p = record p { approved = p.approved ++ t ∷ [] }
push_status changed t p = record p { changed = p.changed ++ t ∷ [] }
push_status unapproved t p = record p { unapproved = p.unapproved ++ t ∷ [] }

module _ (hashing : Hashing) where
  open hashing use {stringify, digest, precedes}

  -- one step of the sort by keys, which is stable
  unfoldable pub insert_entry : Str → Json → JsonEntries → JsonEntries
  insert_entry k v end_entries = entry k v end_entries
  insert_entry k v (entry j w es) =
      if precedes k j then entry k v (entry j w es) else entry j w (insert_entry k v es)

  unfoldable mutual
    pub canonicalise : Json → Json
    canonicalise (scalar n) = scalar n
    canonicalise (string s) = string s
    canonicalise (array is) = array (canonical_items is)
    canonicalise (object es) = object (canonical_entries es)

    canonical_items : JsonItems → JsonItems
    canonical_items end_items = end_items
    canonical_items (item i is) = item (canonicalise i) (canonical_items is)

    canonical_entries : JsonEntries → JsonEntries
    canonical_entries end_entries = end_entries
    canonical_entries (entry k v es) = insert_entry k (canonicalise v) (canonical_entries es)

  abbrev pub canonical_schema : Option Json → Option Json
  canonical_schema none = none
  canonical_schema (some schema) = some (canonicalise schema)

  unfoldable pub hash_tool : ToolDescriptor → Str
  unfolding canonicalise
  hash_tool t = digest (stringify t.name (or_empty t.description) (canonical_schema t.input_schema))

  -- the constructor
  unfoldable pub new_approvals : List PinnedTool → ToolApprovals → ToolApprovals
  new_approvals [] pinned = pinned
  new_approvals (pin ∷ initial) pinned =
      new_approvals initial (put (key pin.server_id pin.name) pin pinned)

  abbrev pub status_of : Option PinnedTool → ToolDescriptor → ToolStatus
  status_of none t = unapproved
  status_of (some pin) t = if str_eq pin.hash (hash_tool t) then approved else changed

  unfoldable pub status : ToolApprovals → Str → ToolDescriptor → ToolStatus
  unfolding hash_tool
  status pinned server_id t = status_of (get (key server_id t.name) pinned) t

  unfoldable pub approve : ToolApprovals → Str → ToolDescriptor → ℕ → ToolApprovals
  unfolding hash_tool
  approve pinned server_id t now =
      put (key server_id t.name)
        (record { server_id = server_id; name = t.name; hash = hash_tool t; approved_at = now })
        pinned

  unfoldable pub revoke : ToolApprovals → Str → Str → ToolApprovals
  revoke pinned server_id name = remove (key server_id name) pinned

  abbrev pub export : ToolApprovals → List PinnedTool
  export pinned = values pinned

  -- the loop
  unfoldable pub partition_from : ToolApprovals → Str → List ToolDescriptor → Partition → Partition
  unfolding status
  partition_from pinned server_id [] p = p
  partition_from pinned server_id (t ∷ tools) p =
      partition_from pinned server_id tools (push_status (status pinned server_id t) t p)

  unfoldable pub partition : ToolApprovals → Str → List ToolDescriptor → Partition
  unfolding partition_from
  partition pinned server_id tools =
      partition_from pinned server_id tools
        (record { approved = []; unapproved = []; changed = [] })

  unfoldable pub pin_call : ToolApprovals → PinCall → ToolApprovals
  unfolding approve revoke
  pin_call pinned (approves server_id t now) = approve pinned server_id t now
  pin_call pinned (revokes server_id name) = revoke pinned server_id name

  unfoldable pub pin_calls : ToolApprovals → List PinCall → ToolApprovals
  unfolding pin_call
  pin_calls pinned [] = pinned
  pin_calls pinned (c ∷ cs) = pin_calls (pin_call pinned c) cs
