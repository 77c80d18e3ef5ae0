-- ===== src/Core/Agent/Wire.antt =====
-- packages/core/src/agent.ts with packages/protocol/src/agui.ts: what a shell that speaks AG-UI reads
-- of a turn.
use open_source_harness.Common.{
  ℕ, ◌≡◌, refl, sym, ap, ◌∙◌, Option, none, some, List, [], ◌∷◌, ◌++◌, Str, arith, append-nil,
  append_assoc,
}
use mathlib.Core.Option.{some-injective}
use mathlib.Core.List.{append_cancel_left}
use open_source_harness.Protocol.Cost.{Amounts}
use open_source_harness.Protocol.Events.{
  FinishReason, AgentState, WorkspaceEvent, Body, run_finished, status, message_delta,
  tool_call_started, tool_call_finished,
}
use open_source_harness.Protocol.AgUi.{
  Serialiser, BaseEvent, text_message_content, stringify_args, started_call, finished_call,
  stringify_result, project, to_ag_ui,
}
use open_source_harness.Gateway.Service.{Provider}
use open_source_harness.Core.Agent.{Host, TurnError, Agent}
use open_source_harness.Core.Agent.Send.{Request, begin_turn, send}
use open_source_harness.Core.Agent.Trace.{delta_of, deltas, deltas-append}
use open_source_harness.Core.Agent.Outcome.{returned-IsClosed}

module _ (amounts : Amounts) where
  end_text :
      {reason : FinishReason} {state : AgentState} (e f : WorkspaceEvent amounts)
      → e.body ≡ run_finished reason
      → f.body ≡ status state
      → deltas amounts (e ∷ f ∷ []) ≡ []
  end_text e f h k =
      ap (λ a. delta_of amounts a ++ deltas amounts (f ∷ [])) h
      ∙ ap (λ a. delta_of amounts a ++ []) k

  abbrev wire_delta : BaseEvent amounts → Str
  wire_delta (text_message_content ts id delta) = delta
  wire_delta _ = []

  -- the text that an AG-UI client puts together
  abbrev pub wire_text : List (BaseEvent amounts) → Str
  wire_text [] = []
  wire_text (e ∷ es) = wire_delta e ++ wire_text es

  wire_text-append :
      (xs ys : List (BaseEvent amounts)) → wire_text (xs ++ ys) ≡ wire_text xs ++ wire_text ys
  wire_text-append [] ys = refl
  wire_text-append (x ∷ xs) ys =
      ap (◌++◌ (wire_delta x)) (wire_text-append xs ys)
      ∙ sym (append_assoc (wire_delta x) (wire_text xs) (wire_text ys))

  module _ (serialiser : Serialiser) (thread_id : Str) where
    -- the stream of events on the wire, up to an event that cannot be projected
    pub data IsProjected : List (WorkspaceEvent amounts) → List (BaseEvent amounts) → Type 0 where
      nothing_left : IsProjected [] []
      event_then :
          {wire rest : List (BaseEvent amounts)} {es : List (WorkspaceEvent amounts)}
          (e : WorkspaceEvent amounts)
          → to_ag_ui amounts serialiser e thread_id ≡ some wire
          → IsProjected es rest
          → IsProjected (e ∷ es) (wire ++ rest)

    call_text :
        (ts : ℕ) (id name : Str) (serialised : Option Str) (wire : List (BaseEvent amounts))
        → started_call amounts serialiser ts id name serialised ≡ some wire
        → wire_text wire ≡ []
    call_text ts id name none wire h = absurd (ground arith)
    call_text ts id name (some args) wire h = ap wire_text (sym (some-injective _ _ h))

    result_text :
        (ts : ℕ) (id : Str) (rendered : Option Str) (wire : List (BaseEvent amounts))
        → finished_call amounts serialiser ts id rendered ≡ some wire
        → wire_text wire ≡ []
    result_text ts id none wire h = absurd (ground arith)
    result_text ts id (some result) wire h = ap wire_text (sym (some-injective _ _ h))

    body_text :
        (run : Str) (ts : ℕ) (body : Body amounts) (wire : List (BaseEvent amounts))
        → project amounts serialiser thread_id run ts body ≡ some wire
        → wire_text wire ≡ delta_of amounts body
    unfolding project
    body_text run ts (message_delta id delta) wire h =
        ap wire_text (sym (some-injective _ _ h)) ∙ append-nil delta
    body_text run ts (tool_call_started id name args) wire h =
        call_text ts id name (stringify_args amounts serialiser args) wire h
    body_text run ts (tool_call_finished id result is_error) wire h =
        result_text ts id (stringify_result amounts serialiser result) wire h
    body_text run ts _ wire h = ap wire_text (sym (some-injective _ _ h))

    projected_text :
        {events : List (WorkspaceEvent amounts)} {wire : List (BaseEvent amounts)}
        → IsProjected events wire
        → wire_text wire ≡ deltas amounts events
    unfolding to_ag_ui
    projected_text nothing_left = refl
    projected_text (event_then {wire = wire} {rest = rest} e h p) =
        wire_text-append wire rest
        ∙ ap (λ s. s ++ wire_text rest) (body_text e.run_id e.ts e.body wire h)
        ∙ ap (◌++◌ (delta_of amounts e.body)) (projected_text p)

module _ (amounts : Amounts) (provider : Provider) (host : Host amounts provider) where
  -- An AG-UI shell reads the text of the turn: if what the agent emits behind the opening of a run can
  -- be projected, the content of the text messages on the wire makes up the text of the result, in a
  -- turn that fails as in one that is complete.
  pub wire_text-send :
      (message_of : TurnError amounts provider host → Str) (request : Request amounts provider host)
      (agent : Agent amounts provider host) (serialiser : Serialiser) (thread_id : Str)
      (events : List (WorkspaceEvent amounts)) (wire : List (BaseEvent amounts))
      → (send amounts provider host message_of request agent).0.emitted
        ≡ (begin_turn amounts provider host message_of request agent).emitted ++ events
      → IsProjected amounts serialiser thread_id events wire
      → wire_text amounts wire ≡ (send amounts provider host message_of request agent).1.text
  wire_text-send message_of request agent serialiser thread_id events wire emits p =
      let closed = returned-IsClosed amounts provider host message_of request agent in
      let b = begin_turn amounts provider host message_of request agent in
      projected_text amounts serialiser thread_id p
      ∙ ap (deltas amounts) (
          append_cancel_left b.emitted events _
            (sym emits ∙ closed.emitted ∙ append_assoc b.emitted closed.middle _))
      ∙ deltas-append amounts closed.middle _
      ∙ ap (◌++◌ (deltas amounts closed.middle))
          (end_text amounts closed.finished closed.rest closed.finishes closed.rests)
      ∙ append-nil _
      ∙ sym closed.text
