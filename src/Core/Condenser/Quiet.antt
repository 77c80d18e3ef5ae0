-- ===== src/Core/Condenser/Quiet.antt =====
-- packages/core/src/condenser.ts, elideToolOutputs: what its report of a change means.
use open_source_harness.Common.{
  ℕ, suc, zero, ◌≡◌, Bool, false, Option, some, List, [], ◌∷◌, Str, arith, refl,
}
use open_source_harness.Common.Monad.{Ensures, Ensures-some, Ensures-bind}
use open_source_harness.Protocol.Messages.{
  Unknown, Message, Part, ToolResultPart, tool_result, text, reasoning, tool_call, file,
}
use open_source_harness.Core.Tokens.{Runtime}
use open_source_harness.Core.Condenser.{
  elide_result, elide_part, elide_parts, elide_message, elide_before,
}

module _ (runtime : Runtime) (persist : Str → Unknown → Option Str) (limit : ℕ) where
  -- A treatment that reports no change returned what it was given.
  elide_part-quiet :
      (p : Part) → Ensures (λ q. q.1 ≡ false → q.0 ≡ p) (elide_part runtime persist limit p)
  unfolding elide_part elide_result
  elide_part-quiet (tool_result r) = record { holds = λ q e h. loud r q e h }
    where
      loud :
          (r : ToolResultPart) (q : Part × Bool)
          → elide_result runtime persist limit r ≡ some q
          → q.1 ≡ false
          → q.0 ≡ tool_result r
      loud r q e h = ground arith
  elide_part-quiet (text s) = Ensures-some _ _ (λ h. refl)
  elide_part-quiet (reasoning r) = Ensures-some _ _ (λ h. refl)
  elide_part-quiet (tool_call c) = Ensures-some _ _ (λ h. refl)
  elide_part-quiet (file f) = Ensures-some _ _ (λ h. refl)

  elide_parts-quiet :
      (ps : List Part)
      → Ensures (λ r. r.1 ≡ false → r.0 ≡ ps) (elide_parts runtime persist limit ps)
  unfolding elide_parts
  elide_parts-quiet [] = Ensures-some _ _ (λ h. refl)
  elide_parts-quiet (p ∷ ps) =
      Ensures-bind _ _ (elide_part runtime persist limit p) _ (elide_part-quiet p) λ q h.
        Ensures-bind _ _ (elide_parts runtime persist limit ps) _ (elide_parts-quiet ps)
          λ r k. Ensures-some _ _ (λ e. ground arith)

  elide_message-quiet :
      (m : Message) → Ensures (λ r. r.1 ≡ false → r.0 ≡ m) (elide_message runtime persist limit m)
  unfolding elide_message
  elide_message-quiet m =
      Ensures-bind _ _ (elide_parts runtime persist limit m.parts) _ (elide_parts-quiet m.parts)
        λ r h. Ensures-some _ _ (λ e. ground arith)

  pub elide_before-quiet :
      (boundary : ℕ) (ms : List Message)
      → Ensures (λ r. r.1 ≡ false → r.0 ≡ ms) (elide_before runtime persist limit boundary ms)
  unfolding elide_before
  elide_before-quiet zero ms = Ensures-some _ _ (λ h. refl)
  elide_before-quiet (suc b) [] = Ensures-some _ _ (λ h. refl)
  elide_before-quiet (suc b) (m ∷ ms) =
      Ensures-bind _ _ (elide_message runtime persist limit m) _ (elide_message-quiet m) λ n h.
        Ensures-bind _ _ (elide_before runtime persist limit b ms) _ (elide_before-quiet b ms)
          λ r k. Ensures-some _ _ (λ e. ground arith)
