-- ===== src/Gateway/Artifacts/Tests.antt =====
-- packages/gateway-model/src/artifacts.ts: one history for two vendors, and instances of the
-- theorems.
use open_source_harness.Common.{
  ℕ, ◌≡◌, refl, ◌+◌, true, false, some, [], ◌∷◌, Str, codes, map, All₂, ltb, ◌&&◌, if◌then◌else◌,
  str_eq, includes, before_first,
}
use open_source_harness.Protocol.Messages.{Message, Part, text, reasoning, assistant}
use open_source_harness.Gateway.Artifacts.{
  prepared, normalise, keeps, strip_message, count_foreign, strip_foreign_reasoning,
  prepare_for_provider, is_switch_safe, same_provider,
}
use open_source_harness.Gateway.Artifacts.Replay.{Stripped, prepare_for_provider_keeps}

-- `toLowerCase` on ASCII text.
abbrev lower_unit : ℕ → ℕ
lower_unit c = if ltb 64 c && ltb c 91 then c + 32 else c

abbrev ascii_lower : Str → Str
ascii_lower = map lower_unit

sealed : Unit {0}
unfolding prepare_for_provider strip_foreign_reasoning keeps normalise is_switch_safe str_eq
    includes before_first same_provider
sealed = tt

abbrev thought : Str → Part
thought provider =
    reasoning (record { text = []; provider = provider; signature = some (codes "sig") })

abbrev answer : Message
answer = record {
  id = codes "1";
  role = assistant;
  parts = thought (codes "Vertex") ∷ thought (codes "anthropic") ∷ text (codes "hi") ∷ [];
  pinned = false;
}

normalise_tests :
    (normalise ascii_lower (codes "google-vertex/gemini") ≡ codes "google")
    × (normalise ascii_lower (codes "Anthropic/claude") ≡ codes "anthropic")
    × (is_switch_safe ascii_lower (codes "vertex") (codes "google/x") false ≡ true)
    × (is_switch_safe ascii_lower (codes "openai") (codes "google") false ≡ false)
unfolding sealed
normalise_tests = (refl, refl, refl, refl)

strip_test : strip_foreign_reasoning ascii_lower (answer ∷ []) (codes "google") ≡ record {
  messages = record answer { parts = thought (codes "Vertex") ∷ text (codes "hi") ∷ [] } ∷ [];
  stripped_foreign = 1;
  stripped_own = 0;
}
unfolding sealed strip_message count_foreign
strip_test = refl

prepare_for_provider_keeps_example :
    (prepare_for_provider ascii_lower (answer ∷ []) (codes "google")
      ≡ prepared (strip_foreign_reasoning ascii_lower (answer ∷ []) (codes "google")))
    × All₂
        (λ m n.
          Stripped ascii_lower (codes "google") m.parts n.parts
          × (n.id ≡ m.id)
          × (n.role ≡ m.role)
          × (n.pinned ≡ m.pinned))
        (answer ∷ [])
        (strip_foreign_reasoning ascii_lower (answer ∷ []) (codes "google")).messages
prepare_for_provider_keeps_example =
    prepare_for_provider_keeps ascii_lower (codes "google") (answer ∷ [])
