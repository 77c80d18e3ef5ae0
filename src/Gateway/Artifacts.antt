-- ===== src/Gateway/Artifacts.antt =====
-- packages/gateway-model/src/artifacts.ts: provider reasoning across a model switch.
-- `lower` is `toLowerCase` of the language.
pub mod Replay
pub mod Tests
use open_source_harness.Common.{
  ℕ, suc, ◌+◌, ◌-◌, Bool, true, false, not, ◌||◌, ◌&&◌, Option, none, some, List, [], ◌∷◌, Str,
  codes, str_eq, includes, before_first, length, filter, map, ltb, leb, ◌==◌, if◌then◌else◌,
}
use open_source_harness.Protocol.Messages.{
  Message, Part, ReasoningPart, text, reasoning, tool_call, tool_result, file,
}

pub record StripResult : Type 0 where
  pub messages : List Message
  pub stripped_foreign : ℕ
  pub stripped_own : ℕ

-- `ReasoningIntegrityError` carries the provider and the number of missing artifacts.
pub data Prepared : Type 0 where
  prepared : StripResult → Prepared
  reasoning_integrity_error : Str → ℕ → Prepared

-- `typeof part.signature === 'string' && part.signature.length > 0`
abbrev pub has_signature : ReasoningPart → Bool
has_signature part = elim part.signature [ none ↦ false | some s ↦ ltb 0 (length s) ]

module _ (lower : Str → Str) where
  unfoldable pub normalise : Str → Str
  normalise provider =
      let vendor = if includes b'/' provider then before_first b'/' provider else provider in
      if str_eq (lower vendor) (codes "vertex") || str_eq (lower vendor) (codes "google-vertex")
      then codes "google"
      else lower vendor

  unfoldable pub same_provider : Str → Str → Bool
  same_provider a b = str_eq (normalise a) (normalise b)

  -- `STRICT_REPLAY_PROVIDERS.has(provider)`
  unfoldable pub is_strict_replay_provider : Str → Bool
  is_strict_replay_provider provider = str_eq provider (codes "google")

  -- the test of the `filter` in `stripForeignReasoning`
  unfoldable pub keeps : Str → Part → Bool
  keeps target (reasoning r) = same_provider r.provider target
  keeps target (text s) = true
  keeps target (tool_call c) = true
  keeps target (tool_result r) = true
  keeps target (file f) = true

  unfoldable pub strip_message : Str → Message → Message
  strip_message target message =
      let kept = filter (keeps target) message.parts in
      if length kept == length message.parts then message else record message { parts = kept }

  -- how often the test runs `strippedForeign++`
  unfoldable pub count_foreign : Str → List Message → ℕ
  count_foreign target [] = 0
  count_foreign target (m ∷ ms) =
      length (filter (λ part. not (keeps target part)) m.parts) + count_foreign target ms

  unfoldable pub strip_foreign_reasoning : List Message → Str → StripResult
  strip_foreign_reasoning messages target = record {
    messages = map (strip_message target) messages;
    stripped_foreign = count_foreign target messages;
    stripped_own = 0;
  }

  abbrev pub is_own_signature : Str → Part → Bool
  is_own_signature target (reasoning r) = same_provider r.provider target && has_signature r
  is_own_signature target (text s) = false
  is_own_signature target (tool_call c) = false
  is_own_signature target (tool_result r) = false
  is_own_signature target (file f) = false

  unfoldable pub count_own_signatures : List Message → Str → ℕ
  count_own_signatures [] provider = 0
  count_own_signatures (m ∷ ms) provider =
      length (filter (is_own_signature provider) m.parts) + count_own_signatures ms provider

  -- The number of missing artifacts where it throws, and `none` where it returns.
  unfoldable pub assert_replayable : List Message → List Message → Str → Option ℕ
  assert_replayable original outgoing target =
      let before = count_own_signatures original target in
      let after = count_own_signatures outgoing target in
      if is_strict_replay_provider (normalise target) && ltb after before
      then some (before - after)
      else none

  unfoldable pub is_switch_safe : Str → Str → Bool → Bool
  is_switch_safe from_provider to_provider at_compaction_boundary =
      if same_provider from_provider to_provider
      then true
      else if at_compaction_boundary
      then true
      else false

  unfoldable pub prepare_for_provider : List Message → Str → Prepared
  prepare_for_provider messages target =
      let result = strip_foreign_reasoning messages target in
      elim (assert_replayable messages result.messages target) [
        | none ↦ prepared result
        | some missing ↦ reasoning_integrity_error target missing
      ]
