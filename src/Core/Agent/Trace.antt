-- ===== src/Core/Agent/Trace.antt =====
-- packages/core/src/agent.ts: what a list of events tells of the text, the tool calls and the steps of a
-- turn.
use open_source_harness.Common.{
  ℕ, ◌+◌, ◌≡◌, refl, sym, ap, ◌∙◌, Bool, true, false, List, [], ◌∷◌, ◌++◌, Str, append_assoc, arith,
}
use open_source_harness.Protocol.Cost.{Amounts}
use open_source_harness.Protocol.Events.{
  Body, run_started, run_finished, status, message_delta, tool_call_started, step_finished,
  WorkspaceEvent,
}
use open_source_harness.Gateway.Artifacts.{}
use open_source_harness.Core.Agent.{}

module _ (amounts : Amounts) where
  -- not one of the events that open and close a run
  abbrev pub is_inner : Body amounts → Bool
  is_inner (run_started id) = false
  is_inner (run_finished reason) = false
  is_inner (status state) = false
  is_inner _ = true

  abbrev pub delta_of : Body amounts → Str
  delta_of (message_delta id delta) = delta
  delta_of _ = []

  abbrev pub started_call : Body amounts → ℕ
  started_call (tool_call_started id name args) = 1
  started_call _ = 0

  abbrev pub reported_call : Body amounts → ℕ
  reported_call (step_finished s) = s.tool_calls
  reported_call _ = 0

  -- the text that the message deltas make up
  abbrev pub deltas : List (WorkspaceEvent amounts) → Str
  deltas [] = []
  deltas (e ∷ es) = delta_of e.body ++ deltas es

  -- the tool calls that were started, and those that finished steps report
  abbrev pub started_calls : List (WorkspaceEvent amounts) → ℕ
  started_calls [] = 0
  started_calls (e ∷ es) = started_call e.body + started_calls es

  abbrev pub reported_calls : List (WorkspaceEvent amounts) → ℕ
  reported_calls [] = 0
  reported_calls (e ∷ es) = reported_call e.body + reported_calls es

  abbrev pub StepFrom : ℕ → Body amounts → ℕ → Type 0
  StepFrom n (step_finished s) m = (s.step_number ≡ n) × (m ≡ n + 1)
  StepFrom n _ m = m ≡ n

  -- The steps that finish are numbered without a gap, from the first number up to the second.
  pub data StepsFrom : ℕ → List (WorkspaceEvent amounts) → ℕ → Type 0 where
    no_more : {n : ℕ} → StepsFrom n [] n
    then_step :
        {n m k : ℕ} {e : WorkspaceEvent amounts} {es : List (WorkspaceEvent amounts)}
        → StepFrom n e.body m
        → StepsFrom m es k
        → StepsFrom n (e ∷ es) k

  pub deltas-append :
      (xs ys : List (WorkspaceEvent amounts)) → deltas (xs ++ ys) ≡ deltas xs ++ deltas ys
  deltas-append [] ys = refl
  deltas-append (x ∷ xs) ys =
      ap (◌++◌ (delta_of x.body)) (deltas-append xs ys)
      ∙ sym (append_assoc (delta_of x.body) (deltas xs) (deltas ys))

  pub calls-append :
      (xs ys : List (WorkspaceEvent amounts))
      → (started_calls (xs ++ ys) ≡ started_calls xs + started_calls ys)
        × (reported_calls (xs ++ ys) ≡ reported_calls xs + reported_calls ys)
  calls-append [] ys = (omega arith, omega arith)
  calls-append (x ∷ xs) ys = omega (arith, calls-append xs ys)

  pub StepsFrom-append :
      {n m k : ℕ} {xs ys : List (WorkspaceEvent amounts)}
      → StepsFrom n xs m
      → StepsFrom m ys k
      → StepsFrom n (xs ++ ys) k
  StepsFrom-append no_more b = b
  StepsFrom-append (then_step s a) b = then_step s (StepsFrom-append a b)
