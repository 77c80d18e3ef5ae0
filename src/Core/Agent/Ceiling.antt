-- ===== src/Core/Agent/Ceiling.antt =====
-- packages/core/src/agent.ts, send against the spend ceiling: what a turn does to the gateway's meter.
use open_source_harness.Common.{
  ℕ, ◌+◌, Bool, ◌≡◌, ◌≢◌, refl, ◌∙◌, inl, inr, true, false, Option, none, some, List, [], ◌∷◌, Str,
  All, Bool-cases, Option-cases,
}
use open_source_harness.Protocol.Cost.{Amounts, CostBuckets}
use open_source_harness.Protocol.Events.{complete, message_finished}
use open_source_harness.Gateway.Artifacts.{
  Prepared, prepared, reasoning_integrity_error, prepare_for_provider,
}
use open_source_harness.Gateway.Budget.{assert_can_proceed}
use open_source_harness.Gateway.Catalog.{Result, ok, err}
use open_source_harness.Gateway.Service.{
  Provider, ModelGateway, ResolvedModel, Resolution, resolved, over_budget, refused, recorded,
  record_usage, start_gateway_run,
}
use open_source_harness.Core.Condenser.{CondenseResult}
use open_source_harness.Core.Agent.{
  Host, gap_after, TurnError, budget_error, catalog_error, Agent, emit, push_message,
  emit_compaction, StepInput, StreamPart, text_start, text_delta, reasoning_delta_part, error_part,
  finish_step, url_source, tool_call_part, tool_result_part, tool_error_part, other_part, TurnEvent,
  prepares, streams, charges, Ending, usage_resolves, usage_rejects, stream_throws, Turn, Looped,
  continues, throws, send_prepared, send_condensed, prepare_step, grow_text, finish_priced,
  handle_part, turn_event, run_stream,
}
use open_source_harness.Core.Agent.Send.{
  Request, emitting, start_turn, fail_turn, finish_turn, end_turn, try_turn, begin_turn, ask, send,
}

module _ (amounts : Amounts) (provider : Provider) (host : Host amounts provider) where
  -- no tool that runs in the turn records a cost
  abbrev pub is_uncharged : TurnEvent amounts provider host → Bool
  is_uncharged (prepares input) = true
  is_uncharged (streams part) = true
  is_uncharged (charges cost) = false

  -- the gateway that the loop leaves
  abbrev pub gateway_left : Looped amounts provider host → ModelGateway amounts provider
  gateway_left (continues t) = t.agent.gateway
  gateway_left (throws t e) = t.agent.gateway

  module _ (run_id message_id : Str) (model : ResolvedModel amounts provider) where
    text_gateway :
        (t : Turn amounts provider host) (delta : Str)
        → (grow_text amounts provider host run_id message_id model t delta).agent.gateway
          ≡ t.agent.gateway
    unfolding emit
    text_gateway t [] = refl
    text_gateway t (c ∷ delta) = refl

    finish_gateway :
        (t : Turn amounts provider host) (searches : ℕ) (duration : Option ℕ) (reason : Option Str)
        (price : Result (CostBuckets amounts))
        → gateway_left (
            finish_priced amounts provider host run_id message_id model t searches duration reason
              price)
          ≡ t.agent.gateway
    unfolding emit
    finish_gateway t searches duration reason (err e) = refl
    finish_gateway t searches duration reason (ok cost) = refl

    part_gateway :
        (t : Turn amounts provider host) (part : StreamPart amounts provider host)
        → gateway_left (handle_part amounts provider host run_id message_id model t part)
          ≡ t.agent.gateway
    unfolding handle_part emit
    part_gateway t text_start = text_gateway t (gap_after t.text)
    part_gateway t (text_delta delta) = refl
    part_gateway t (reasoning_delta_part delta) = refl
    part_gateway t (error_part e) = refl
    part_gateway t (finish_step usage searches duration reason) =
        finish_gateway (record t { web_searches = t.web_searches + searches }) searches duration
          reason _
    part_gateway t (url_source url title) = refl
    part_gateway t (tool_call_part id name input) = refl
    part_gateway t (tool_result_part id output) = refl
    part_gateway t (tool_error_part id message) = refl
    part_gateway t other_part = refl

    compaction_gateway :
        (a : Agent amounts provider host) (condensed : CondenseResult)
        → (emit_compaction amounts provider host a run_id condensed).gateway ≡ a.gateway
    unfolding emit_compaction emit
    compaction_gateway a condensed = elim (Bool-cases condensed.compacted) [
      | inl done ↦ rw (emit_compaction, done) refl
      | inr untouched ↦ rw (emit_compaction, untouched) refl
    ]

    prepared_gateway :
        (t : Turn amounts provider host) (input : StepInput amounts provider host) (p : Prepared)
        → (send_prepared amounts provider host run_id message_id model t input p).agent.gateway
          ≡ t.agent.gateway
    unfolding emit
    prepared_gateway t input (prepared result) = refl
    prepared_gateway t input (reasoning_integrity_error target missing) = refl

    condensed_gateway :
        (t : Turn amounts provider host) (input : StepInput amounts provider host)
        (c : Option CondenseResult)
        → (send_condensed amounts provider host run_id message_id model t input c).agent.gateway
          ≡ t.agent.gateway
    condensed_gateway t input none = refl
    condensed_gateway t input (some condensed) =
        prepared_gateway _ input
          (prepare_for_provider provider.lower condensed.messages model.vendor)
        ∙ compaction_gateway t.agent condensed

    prepare_gateway :
        (t : Turn amounts provider host) (input : StepInput amounts provider host)
        → (prepare_step amounts provider host run_id message_id model t input).agent.gateway
          ≡ t.agent.gateway
    unfolding prepare_step
    prepare_gateway t input =
        elim (Option-cases
          (assert_can_proceed amounts t.agent.gateway.limits t.agent.gateway.meter)) [
            | inl clear ↦ rw (prepare_step, clear) (condensed_gateway t input _)
            | inr (exceeded, hit) ↦ rw (prepare_step, hit) refl
          ]

    event_gateway :
        (t : Turn amounts provider host) (event : TurnEvent amounts provider host)
        → is_uncharged event ≡ true
        → gateway_left (turn_event amounts provider host run_id message_id model t event)
          ≡ t.agent.gateway
    unfolding turn_event
    event_gateway t (prepares input) u = prepare_gateway t input
    event_gateway t (streams part) u = part_gateway t part
    event_gateway t (charges cost) u = cc

    -- However many requests a turn makes, while no tool records a cost the gateway is the one that the
    -- turn began with: a step of the turn is not charged to the run before the turn is over.
    pub run_stream-keeps_gateway :
        (t : Turn amounts provider host) (events : List (TurnEvent amounts provider host))
        → All (λ event. is_uncharged event ≡ true) events
        → gateway_left (run_stream amounts provider host run_id message_id model t events)
          ≡ t.agent.gateway
    unfolding run_stream
    run_stream-keeps_gateway t [] u = refl
    run_stream-keeps_gateway t (event ∷ events) (u, us) =
        after (turn_event amounts provider host run_id message_id model t event)
          (event_gateway t event u) (λ next. run_stream-keeps_gateway next events us)
      where
        after :
            (l : Looped amounts provider host)
            → gateway_left l ≡ t.agent.gateway
            → ((next : Turn amounts provider host)
                → gateway_left
                    (run_stream amounts provider host run_id message_id model next events)
                  ≡ next.agent.gateway)
            → gateway_left (elim l [
              | continues next ↦
                  run_stream amounts provider host run_id message_id model next events
              | throws next e ↦ throws next e
            ])
              ≡ t.agent.gateway
        after (continues next) g rest = rest next ∙ g
        after (throws next e) g rest = g

  module _ (message_of : TurnError amounts provider host → Str)
      (request : Request amounts provider host) where
    fail_gateway :
        (t : Turn amounts provider host) (thrown : TurnError amounts provider host)
        → (fail_turn amounts provider host message_of request t thrown).0.gateway ≡ t.agent.gateway
    unfolding fail_turn emit
    fail_gateway t thrown = refl

    unpaid_gateway :
        (t : Turn amounts provider host) (r : Result (CostBuckets amounts))
        → (finish_turn amounts provider host message_of request t
            (recorded amounts provider t.agent.gateway r)).1.stopped_by
          ≢ complete
        → request.cost_refused ≡ none
        → request.answer_refused ≡ none
        → (finish_turn amounts provider host message_of request t
            (recorded amounts provider t.agent.gateway r)).0.gateway
          ≡ t.agent.gateway
    unfolding finish_turn push_message emit
    unpaid_gateway t (ok cost) failed c a = absurd (failed (rw (c) (rw (a) refl)))
    unpaid_gateway t (err e) failed c a = fail_gateway t (catalog_error e)

    end_gateway :
        (l : Looped amounts provider host) (ending : Ending amounts provider host)
        → (end_turn amounts provider host message_of request l ending).1.stopped_by ≢ complete
        → request.cost_refused ≡ none
        → request.answer_refused ≡ none
        → (end_turn amounts provider host message_of request l ending).0.gateway ≡ gateway_left l
    unfolding end_turn emit record_usage
    end_gateway (throws t e) ending failed c a = fail_gateway t e
    end_gateway (continues t) (stream_throws e) failed c a = fail_gateway t e
    end_gateway (continues t) (usage_rejects e) failed c a =
        fail_gateway
          (record t {
            agent =
                emitting amounts provider host message_of request t.agent
                  (message_finished request.message_id);
          })
          e
    end_gateway (continues t) (usage_resolves usage) failed c a =
        unpaid_gateway
          (record t {
            agent =
                emitting amounts provider host message_of request t.agent
                  (message_finished request.message_id);
          })
          _ failed c a

    try_gateway :
        (b : Agent amounts provider host) (r : Resolution amounts provider)
        → All (λ event. is_uncharged event ≡ true) request.events
        → request.cost_refused ≡ none
        → request.answer_refused ≡ none
        → (try_turn amounts provider host message_of request b r).1.stopped_by ≢ complete
        → (try_turn amounts provider host message_of request b r).0.gateway ≡ b.gateway
    unfolding try_turn emit
    try_gateway b (over_budget exceeded) u c a failed =
        fail_gateway (start_turn amounts provider host message_of request b) (budget_error exceeded)
    try_gateway b (refused e) u c a failed =
        fail_gateway (start_turn amounts provider host message_of request b) (catalog_error e)
    try_gateway b (resolved model) u c a failed =
        end_gateway _ request.ending failed c a
        ∙ run_stream-keeps_gateway request.run_id request.message_id model _ request.events u

    -- A turn that fails and is returned is not charged, whatever it streamed, if no tool of it records a cost and the
    -- two callbacks that come behind its recorded usage, for the cost and for the answer, do not throw:
    -- its gateway is the one at the start of the run, and so are the totals that the ceiling is
    -- compared with.
    pub failed_send_costs_nothing :
        (agent : Agent amounts provider host)
        → All (λ event. is_uncharged event ≡ true) request.events
        → request.cost_refused ≡ none
        → request.answer_refused ≡ none
        → (send amounts provider host message_of request agent).1.stopped_by ≢ complete
        → (send amounts provider host message_of request agent).0.gateway
          ≡ start_gateway_run amounts provider agent.gateway
    unfolding send begin_turn ask push_message emit
    failed_send_costs_nothing agent u c a failed = try_gateway _ _ u c a failed
