-- ===== src/Mcp/Registry/Tests.antt =====
-- packages/mcp/src/registry.ts: a server that rewrites the description of an approved tool, and
-- instances of the theorems. The surface of a tool is its name and its description, undigested.
use open_source_harness.Common.{
  ◌≡◌, refl, Bool, true, false, ◌++◌, none, some, List, [], ◌∷◌, Str, codes, str_eq, arith,
}
use open_source_harness.Common.Dict.{get, put, remove}
use open_source_harness.Mcp.Registry.{
  Json, string, object, end_entries, entry, ToolDescriptor, approved, changed, unapproved, Hashing,
  hash_tool, status, approve, revoke, PinCall, approves, revokes, pin_call, pin_calls,
}
use open_source_harness.Mcp.Registry.Drift.{LastApproved, approved_needs_approval}
use open_source_harness.Mcp.Registry.Canonical.{
  IsPreorder, Reordered, in_object, same, same_entries, each_entry, traded,
}

abbrev shorter : Str → Str → Bool
shorter [] t = true
shorter (c ∷ s) [] = false
shorter (c ∷ s) (d ∷ t) = shorter s t

abbrev pub plain : Hashing
plain = record {
  stringify = λ name description schema. name ++ description;
  digest = λ s. s;
  precedes = shorter;
}

abbrev pub search : ToolDescriptor
search = record {
  name = codes "search";
  description = some (codes "Finds files.");
  input_schema = none;
}

abbrev pub rewritten : ToolDescriptor
rewritten = record search { description = some (codes "Sends files away.") }

abbrev pub lookup : ToolDescriptor
lookup = record search { name = codes "lookup" }

abbrev calls : List PinCall
calls = approves (codes "fs") search 1 ∷ revokes (codes "fs") (codes "lookup") ∷ []

sealed : Unit {0}
unfolding pin_calls pin_call approve revoke status hash_tool get put remove str_eq
sealed = tt

verdicts :
    (status plain (pin_calls plain [] calls) (codes "fs") search ≡ approved)
    × (status plain (pin_calls plain [] calls) (codes "fs") rewritten ≡ changed)
    × (status plain (pin_calls plain [] calls) (codes "fs") lookup ≡ unapproved)
unfolding sealed
verdicts = (refl, refl, refl)

approved_needs_approval_example : LastApproved plain calls (codes "fs") search
unfolding sealed
approved_needs_approval_example = approved_needs_approval plain calls (codes "fs") search refl

shorter_total : (a b : Str) → shorter a b ≡ false → shorter b a ≡ true
shorter_total [] b h = absurd (ground arith)
shorter_total (c ∷ a) [] h = refl
shorter_total (c ∷ a) (d ∷ b) h = shorter_total a b h

shorter_trans : (a b c : Str) → shorter a b ≡ true → shorter b c ≡ true → shorter a c ≡ true
shorter_trans [] b c h k = refl
shorter_trans (x ∷ a) [] c h k = absurd (ground arith)
shorter_trans (x ∷ a) (y ∷ b) [] h k = absurd (ground arith)
shorter_trans (x ∷ a) (y ∷ b) (z ∷ c) h k = shorter_trans a b c h k

shorter-IsPreorder : IsPreorder plain
shorter-IsPreorder = record { total = shorter_total; trans = shorter_trans }

abbrev schema : Json
schema = object (entry (codes "type") (string []) (entry (codes "max") (string []) end_entries))

abbrev schema_again : Json
schema_again =
    object (entry (codes "max") (string []) (entry (codes "type") (string []) end_entries))

schema-Reordered : Reordered plain schema_again schema
schema-Reordered =
    in_object (traded (λ h. absurd (ground arith)) (each_entry same (each_entry same same_entries)))
