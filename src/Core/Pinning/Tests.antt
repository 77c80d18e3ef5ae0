-- ===== src/Core/Pinning/Tests.antt =====
-- packages/core/src/pinning.ts: a policy with one rule, and instances of the theorems.
use open_source_harness.Common.{ℕ, false, List, [], ◌∷◌, Str, codes}
use open_source_harness.Protocol.Messages.{Message, text, system, user}
use open_source_harness.Core.Pinning.{OrgPolicy, PolicyPin}

abbrev pub rule : Str
rule = codes "Never delete customer data."

abbrev pub policy : OrgPolicy
policy = record {
  org_id = codes "acme";
  user_id = codes "ada";
  role = codes "staff";
  scope = [];
  permissions = codes "read" ∷ codes "write" ∷ [];
  constraints = rule ∷ [];
}

abbrev pub shown : ℕ → Str
shown n = codes "1.00"

abbrev pin : PolicyPin shown
pin = record { policy = record policy { constraints = [] } }

-- A question, and a stale copy of the policy that must not be sent again.
abbrev stale : Message
stale = record {
  id = codes "pinned:org-policy";
  role = system;
  parts = text (codes "Anything goes.") ∷ [];
  pinned = false;
}

abbrev history : List Message
history =
    stale
    ∷ record {
      id = codes "u1";
      role = user;
      parts = text (codes "Clean up the archive.") ∷ [];
      pinned = false;
    }
    ∷ []
