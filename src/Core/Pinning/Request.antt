-- ===== src/Core/Pinning/Request.antt =====
-- packages/core/src/pinning.ts, assembleRequest: what every request is made of.
use open_source_harness.Common.{
  ◌≡◌, refl, ap, ◌∙◌, true, false, List, [], ◌∷◌, ◌++◌, Str, filter, map, filter-append,
  filter_idem, filter-eq-nil_of_All, All, All-filter, str_eq_refl, arith,
}
use open_source_harness.Common.Dict.{member}
use open_source_harness.Protocol.Messages.{Message}
use open_source_harness.Core.Pinning.{is_clean, assemble_request}

abbrev ids : List Message → List Str
ids = map (λ (m : Message). m.id)

-- Of a list whose ids are all in `js`, the cleaning keeps nothing.
none_clean :
    (js : List Str) (ms : List Message)
    → All (λ (m : Message). member m.id js ≡ true) ms
    → All (λ m. is_clean js m ≡ false) ms
none_clean js [] a = tt
none_clean js (m ∷ ms) a = (ground (arith, a.0), none_clean js ms a.1)

weaken :
    (j : Str) (js : List Str) (ms : List Message)
    → All (λ (m : Message). member m.id js ≡ true) ms
    → All (λ (m : Message). member m.id (j ∷ js) ≡ true) ms
unfolding member
weaken j js [] a = tt
weaken j js (m ∷ ms) a = (ground (arith, a.0), weaken j js ms a.1)

own_ids : (ms : List Message) → All (λ (m : Message). member m.id (ids ms) ≡ true) ms
unfolding member
own_ids [] = tt
own_ids (m ∷ ms) = (ground (arith, str_eq_refl m.id), weaken m.id (ids ms) ms (own_ids ms))

-- A request is the pinned messages, all of them and first, then the history without its pinned
-- messages and without any message that has the id of a pinned one. So assembling a request again
-- changes nothing, and no stale copy of a pinned message can follow the fresh one.
pub assemble_request-idempotent :
    (pinned history : List Message)
    → (assemble_request pinned (assemble_request pinned history) ≡ assemble_request pinned history)
      × (rest : List Message) × (assemble_request pinned history ≡ pinned ++ rest)
      × All (λ (m : Message). is_clean (map (λ (p : Message). p.id) pinned) m ≡ true) rest
unfolding assemble_request
assemble_request-idempotent pinned history = (
  ap (◌++◌ pinned) (
      filter-append (is_clean (ids pinned)) pinned _
      ∙ ap (λ xs. xs ++ filter (is_clean (ids pinned)) (filter (is_clean (ids pinned)) history))
          (filter-eq-nil_of_All _ pinned (none_clean (ids pinned) pinned (own_ids pinned)))
      ∙ filter_idem (is_clean (ids pinned)) history),
  filter (is_clean (ids pinned)) history,
  refl,
  All-filter _ history,
)
