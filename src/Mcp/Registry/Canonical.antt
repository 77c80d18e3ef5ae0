-- ===== src/Mcp/Registry/Canonical.antt =====
-- packages/mcp/src/registry.ts, hashTool: the order in which a server writes its JSON.
use open_source_harness.Common.{◌≡◌, refl, ap, ◌∙◌, true, false, Option, some, Str, arith}
use open_source_harness.Mcp.Registry.{
  Json, array, object, JsonItems, end_items, item, JsonEntries, end_entries, entry, Hashing,
  insert_entry, canonicalise, canonical_items, canonical_entries, or_empty, hash_tool,
}

module _ (hashing : Hashing) where
  open hashing use {precedes}

  -- The comparison is a total preorder, as that of `localeCompare` is.
  pub record IsPreorder : Type 0 where
    pub total : (a b : Str) → precedes a b ≡ false → precedes b a ≡ true
    pub trans : (a b c : Str) → precedes a b ≡ true → precedes b c ≡ true → precedes a c ≡ true

  -- The same value, with the entries of objects in another order. Two neighbouring entries trade
  -- places if the comparison tells their keys apart.
  mutual
    pub data Reordered : Json → Json → Type 0 where
      same : {a : Json} → Reordered a a
      in_array : {is js : JsonItems} → ReorderedItems is js → Reordered (array is) (array js)
      in_object : {es fs : JsonEntries} → ReorderedEntries es fs → Reordered (object es) (object fs)

    pub data ReorderedItems : JsonItems → JsonItems → Type 0 where
      same_items : ReorderedItems end_items end_items
      each_item :
          {a b : Json} {is js : JsonItems}
          → Reordered a b
          → ReorderedItems is js
          → ReorderedItems (item a is) (item b js)

    pub data ReorderedEntries : JsonEntries → JsonEntries → Type 0 where
      same_entries : ReorderedEntries end_entries end_entries
      each_entry :
          {k : Str} {a b : Json} {es fs : JsonEntries}
          → Reordered a b
          → ReorderedEntries es fs
          → ReorderedEntries (entry k a es) (entry k b fs)
      traded :
          {k j : Str} {a b : Json} {es fs : JsonEntries}
          → (precedes k j ≡ true → precedes j k ≡ false)
          → ReorderedEntries (entry k a (entry j b es)) fs
          → ReorderedEntries (entry j b (entry k a es)) fs

  insert_trades :
      (order : IsPreorder) (k j : Str) (v w : Json) (es : JsonEntries)
      → (precedes k j ≡ true → precedes j k ≡ false)
      → insert_entry hashing j w (insert_entry hashing k v es)
        ≡ insert_entry hashing k v (insert_entry hashing j w es)
  unfolding insert_entry
  insert_trades order k j v w end_entries apart = ground (arith, order.total k j)
  insert_trades order k j v w (entry i u es) apart = ground (
    arith,
    insert_trades order k j v w es apart,
    order.total k j,
    order.trans k j i,
    order.trans j k i,
  )

  -- The canonical forms of reordered values agree.
  mutual
    unfolding canonicalise canonical_items canonical_entries

    canonical_same :
        (order : IsPreorder) {a b : Json}
        → Reordered a b
        → canonicalise hashing a ≡ canonicalise hashing b
    canonical_same order same = refl
    canonical_same order (in_array r) = ap array (canonical_same_items order r)
    canonical_same order (in_object r) = ap object (canonical_same_entries order r)

    canonical_same_items :
        (order : IsPreorder) {is js : JsonItems}
        → ReorderedItems is js
        → canonical_items hashing is ≡ canonical_items hashing js
    canonical_same_items order same_items = refl
    canonical_same_items order (each_item {b} {is} r rs) =
        ap (λ x. item x (canonical_items hashing is)) (canonical_same order r)
        ∙ ap (item (canonicalise hashing b)) (canonical_same_items order rs)

    canonical_same_entries :
        (order : IsPreorder) {es fs : JsonEntries}
        → ReorderedEntries es fs
        → canonical_entries hashing es ≡ canonical_entries hashing fs
    canonical_same_entries order same_entries = refl
    canonical_same_entries order (each_entry {k} {b} {es} r rs) =
        ap (λ x. insert_entry hashing k x (canonical_entries hashing es)) (canonical_same order r)
        ∙ ap (insert_entry hashing k (canonicalise hashing b)) (canonical_same_entries order rs)
    canonical_same_entries order (traded {k} {j} {a} {b} {es} apart r) =
        insert_trades order k j (canonicalise hashing a) (canonicalise hashing b)
          (canonical_entries hashing es) apart
        ∙ canonical_same_entries order r

  -- A server that writes the schema of a tool with the keys of its objects in another order, keys
  -- that the comparison tells apart, keeps the hash of the tool, and so its approval.
  pub hash_tool_ignores_key_order :
      (name : Str) (description : Option Str) (a b : Json)
      → IsPreorder
      → Reordered a b
      → hash_tool hashing (record { name = name; description = description; input_schema = some a })
        ≡ hash_tool hashing
            (record { name = name; description = description; input_schema = some b })
  unfolding hash_tool
  hash_tool_ignores_key_order name description a b order r =
      ap (λ j. hashing.digest (hashing.stringify name (or_empty description) (some j)))
        (canonical_same order r)
