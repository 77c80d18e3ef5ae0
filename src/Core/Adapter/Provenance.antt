-- ===== src/Core/Adapter/Provenance.antt =====
-- packages/core/src/adapter.ts with packages/gateway-model/src/artifacts.ts: the reasoning parts of
-- a step of the agent, which reads the SDK's messages back and prepares them for the vendor.
use open_source_harness.Common.{
  ℕ, suc, ◌≡◌, refl, ◌∙◌, false, not, none, List, [], ◌∷◌, Str, codes, map, filter, All, All₂,
  arith,
}
use open_source_harness.Protocol.Messages.{
  Part, text, reasoning, tool_call, tool_result, file, Message, is_reasoning,
}
use open_source_harness.Gateway.Artifacts.{
  same_provider, keeps, is_own_signature, count_own_signatures, assert_replayable, strip_message,
  strip_foreign_reasoning,
}
use open_source_harness.Gateway.Artifacts.Replay.{strip_message-parts}
use open_source_harness.Core.Adapter.{
  UserPart, AssistantPart, ToolPart, ModelMessage, plain, items, system_message, user_message,
  assistant_message, tool_message, text_part, image_part, file_part, reasoning_part, tool_call_part,
  other_assistant_part, tool_result_part, other_tool_part, from_user_part, from_assistant_parts,
  from_tool_parts, from_model_message, from_index, from_model_messages,
}

-- Reasoning that names no provider and carries no signature, and every other part.
abbrev IsAnonymous : Part → Type 0
IsAnonymous (reasoning r) = (r.provider ≡ codes "unknown") × (r.signature ≡ none)
IsAnonymous (text s) = Unit
IsAnonymous (tool_call c) = Unit
IsAnonymous (tool_result r) = Unit
IsAnonymous (file f) = Unit

user-IsAnonymous : (ps : List UserPart) → All IsAnonymous (map from_user_part ps)
unfolding from_user_part
user-IsAnonymous [] = tt
user-IsAnonymous (text_part s ∷ ps) = (tt, user-IsAnonymous ps)
user-IsAnonymous (image_part b m ∷ ps) = (tt, user-IsAnonymous ps)
user-IsAnonymous (file_part b m f ∷ ps) = (tt, user-IsAnonymous ps)

assistant-IsAnonymous : (ps : List AssistantPart) → All IsAnonymous (from_assistant_parts ps)
unfolding from_assistant_parts
assistant-IsAnonymous [] = tt
assistant-IsAnonymous (text_part s ∷ ps) = (tt, assistant-IsAnonymous ps)
assistant-IsAnonymous (reasoning_part s ∷ ps) = ((refl, refl), assistant-IsAnonymous ps)
assistant-IsAnonymous (tool_call_part c ∷ ps) = (tt, assistant-IsAnonymous ps)
assistant-IsAnonymous (other_assistant_part ∷ ps) = assistant-IsAnonymous ps

tool-IsAnonymous : (ps : List ToolPart) → All IsAnonymous (from_tool_parts ps)
unfolding from_tool_parts
tool-IsAnonymous [] = tt
tool-IsAnonymous (tool_result_part i n o ∷ ps) = (tt, tool-IsAnonymous ps)
tool-IsAnonymous (other_tool_part ∷ ps) = tool-IsAnonymous ps

abbrev AllAnonymous : List Message → Type 0
AllAnonymous = All (λ (m : Message). All IsAnonymous m.parts)

message-IsAnonymous :
    (id : Str) (m : ModelMessage) → All IsAnonymous (from_model_message id m).parts
message-IsAnonymous id (system_message s) = (tt, tt)
message-IsAnonymous id (user_message (plain s)) = (tt, tt)
message-IsAnonymous id (user_message (items ps)) = user-IsAnonymous ps
message-IsAnonymous id (assistant_message (plain s)) = (tt, tt)
message-IsAnonymous id (assistant_message (items ps)) = assistant-IsAnonymous ps
message-IsAnonymous id (tool_message ps) = tool-IsAnonymous ps

from_index-AllAnonymous : (i : ℕ) (ms : List ModelMessage) → AllAnonymous (from_index i ms)
unfolding from_index
from_index-AllAnonymous i [] = tt
from_index-AllAnonymous i (m ∷ ms) = (message-IsAnonymous _ m, from_index-AllAnonymous (suc i) ms)

module _ (lower : Str → Str) where
  no_own_signature :
      (target : Str) (ps : List Part)
      → All IsAnonymous ps
      → filter (is_own_signature lower target) ps ≡ []
  no_own_signature target [] a = refl
  no_own_signature target (text s ∷ ps) a = no_own_signature target ps a.1
  no_own_signature target (reasoning r ∷ ps) ((p, s), a) =
      ground (arith, no_own_signature target ps a)
  no_own_signature target (tool_call c ∷ ps) a = no_own_signature target ps a.1
  no_own_signature target (tool_result r ∷ ps) a = no_own_signature target ps a.1
  no_own_signature target (file f ∷ ps) a = no_own_signature target ps a.1

  count-eq-zero :
      (target : Str) (ms : List Message)
      → AllAnonymous ms
      → count_own_signatures lower ms target ≡ 0
  unfolding count_own_signatures
  count-eq-zero target [] a = refl
  count-eq-zero target (m ∷ ms) a =
      rw (no_own_signature target m.parts a.0, count-eq-zero target ms a.1) refl

  keeps_named :
      (target : Str) (p : Part)
      → same_provider lower (codes "unknown") target ≡ false
      → IsAnonymous p
      → keeps lower target p ≡ not (is_reasoning p)
  unfolding keeps
  keeps_named target (reasoning r) h (e, s) = rw e h
  keeps_named target (text s) h a = refl
  keeps_named target (tool_call c) h a = refl
  keeps_named target (tool_result r) h a = refl
  keeps_named target (file f) h a = refl

  filter_named :
      (target : Str) (ps : List Part)
      → same_provider lower (codes "unknown") target ≡ false
      → All IsAnonymous ps
      → filter (keeps lower target) ps ≡ filter (λ p. not (is_reasoning p)) ps
  filter_named target [] h a = refl
  filter_named target (p ∷ ps) h a =
      rw (keeps_named target p h a.0, filter_named target ps h a.1) refl

  -- The messages are the same ones without their reasoning parts.
  abbrev pub WithoutReasoning : List Message → List Message → Type 0
  WithoutReasoning = All₂ (λ (m n : Message). n.parts ≡ filter (λ p. not (is_reasoning p)) m.parts)

  strip-WithoutReasoning :
      (target : Str) (ms : List Message)
      → same_provider lower (codes "unknown") target ≡ false
      → AllAnonymous ms
      → WithoutReasoning ms (map (strip_message lower target) ms)
  strip-WithoutReasoning target [] h a = tt
  strip-WithoutReasoning target (m ∷ ms) h a = (
    strip_message-parts lower target m ∙ filter_named target m.parts h a.0,
    strip-WithoutReasoning target ms h a.1,
  )

  -- For a vendor that is not called unknown, preparing the messages that a step reads back from the
  -- SDK removes every reasoning part, those of that vendor too; and the check on lost artifacts
  -- accepts whatever is sent in place of these messages.
  pub prepared_step-WithoutReasoning :
      (target : Str) (ms : List ModelMessage) (outgoing : List Message)
      → same_provider lower (codes "unknown") target ≡ false
      → WithoutReasoning
          (from_model_messages ms)
          (strip_foreign_reasoning lower (from_model_messages ms) target).messages
        × (assert_replayable lower (from_model_messages ms) outgoing target ≡ none)
  unfolding from_model_messages strip_foreign_reasoning assert_replayable
  prepared_step-WithoutReasoning target ms outgoing h = (
    strip-WithoutReasoning target _ h (from_index-AllAnonymous 0 ms),
    ground (arith, count-eq-zero target (from_index 0 ms) (from_index-AllAnonymous 0 ms)),
  )
