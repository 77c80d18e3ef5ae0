-- ===== src/Core/Agent/Send.antt =====
-- packages/core/src/agent.ts: a whole turn of the agent, and the switch of its model.
use open_source_harness.Common.{
  ℕ, Bool, false, Option, none, some, List, [], ◌∷◌, Str, map, if◌then◌else◌,
}
use open_source_harness.Protocol.Messages.{FilePart, text, file, user, assistant, Message}
use open_source_harness.Protocol.Cost.{Amounts, CostBuckets}
use open_source_harness.Protocol.Events.{
  Body, FinishReason, complete, error, budget_exceeded, thinking, idle, run_started, run_finished,
  run_error, status, message_started, message_finished, model_switched, cost_updated,
}
use open_source_harness.Gateway.Artifacts.{is_switch_safe}
use open_source_harness.Gateway.Catalog.{ModelEntry, CatalogError, Result, ok, err, get_entry}
use open_source_harness.Gateway.Service.{
  Provider, ModelGateway, Resolution, resolved, over_budget, refused, resolve_model, record_usage,
  start_gateway_run,
}
use open_source_harness.Core.Adapter.{to_model_messages}
use open_source_harness.Core.Adapter.Attachments.{resolve_attachments}
use open_source_harness.Core.Agent.{
  Host, vendor_of_model, instructions_for, TurnError, budget_error, catalog_error, other_error,
  Agent, emit, push_message, Outbound, TurnEvent, Ending, usage_resolves, usage_rejects,
  stream_throws, Turn, Looped, continues, throws, run_stream, TurnResult,
}

module _ (amounts : Amounts) (provider : Provider) (host : Host amounts provider) where
  open provider use {lower}

  abbrev pub with_attachments : Option (Str → Option ℕ) → List Message → List Message
  with_attachments none history = history
  with_attachments (some read) history = resolve_attachments read history

  abbrev pub user_message : Str → Str → List FilePart → Message
  user_message id user_text attachments = record {
    id = id;
    role = user;
    parts = text user_text ∷ map file attachments;
    pinned = false;
  }

  abbrev pub assistant_message : Str → Str → Message
  assistant_message id answer = record {
    id = id;
    role = assistant;
    parts = text answer ∷ [];
    pinned = false;
  }

  -- what `streamText` itself is given
  unfoldable pub opening : Agent amounts provider host → Option Str → Outbound amounts provider host
  unfolding instructions_for
  opening agent extra = record {
    instructions = instructions_for amounts provider host agent.config none extra;
    messages = to_model_messages (with_attachments agent.config.read_attachment agent.history);
    active_tools = none;
  }

  abbrev pub is_budget : TurnError amounts provider host → FinishReason
  is_budget (budget_error e) = budget_exceeded
  is_budget (catalog_error e) = error
  is_budget (TurnError.integrity_error target missing) = error
  is_budget other_error = error

  -- `streamError ?? error`
  abbrev pub cause_of :
      Option (TurnError amounts provider host)
      → TurnError amounts provider host
      → TurnError amounts provider host
  cause_of none thrown = thrown
  cause_of (some e) thrown = e

  -- The arguments of a call of `send`, and all that its surroundings do.
  pub record Request : Type 0 where
    pub user_text : Str
    pub attachments : List FilePart
    pub run_id : Str
    pub user_id : Str
    pub message_id : Str
    pub extra : Option Str
    pub events : List (TurnEvent amounts provider host)
    pub ending : Ending amounts provider host
    -- what `onMessage` throws for the user's message, and behind the recorded usage what `onEvent`
    -- throws for cost.updated and `onMessage` for the answer; `none` where they return
    pub asked_refused : Option (TurnError amounts provider host)
    pub cost_refused : Option (TurnError amounts provider host)
    pub answer_refused : Option (TurnError amounts provider host)

  -- what `send` gives, with the agent that it leaves
  pub data Sent : Type 0 where
    returned : Agent amounts provider host × TurnResult amounts provider host → Sent
    rejected : Agent amounts provider host → TurnError amounts provider host → Sent

  module _ (message_of : TurnError amounts provider host → Str) (request : Request) where
    open request use {run_id, message_id}

    abbrev pub emitting : Agent amounts provider host → Body amounts → Agent amounts provider host
    emitting agent body = emit amounts provider host agent run_id body

    -- the `catch`
    unfoldable pub fail_turn :
        Turn amounts provider host
        → TurnError amounts provider host
        → Agent amounts provider host × TurnResult amounts provider host
    unfolding emit
    fail_turn turn thrown =
        let cause = cause_of turn.stream_error thrown in
        let reason = is_budget cause in
        (
          emitting
              (emitting (emitting turn.agent (run_error (message_of cause))) (run_finished reason))
              (status idle),
          record { text = turn.text; run_id = run_id; stopped_by = reason; error = some cause },
        )

    -- behind the answer's `onMessage`, and behind the emitted cost
    abbrev pub finish_answered :
        Turn amounts provider host
        → Agent amounts provider host
        → Option (TurnError amounts provider host)
        → Agent amounts provider host × TurnResult amounts provider host
    finish_answered turn answered (some e) = fail_turn (record turn { agent = answered }) e
    finish_answered turn answered none = (
      emitting (emitting answered (run_finished complete)) (status idle),
      record { text = turn.text; run_id = run_id; stopped_by = complete; error = none },
    )

    abbrev pub finish_costed :
        Turn amounts provider host
        → Agent amounts provider host
        → Option (TurnError amounts provider host)
        → Agent amounts provider host × TurnResult amounts provider host
    finish_costed turn costed (some e) = fail_turn (record turn { agent = costed }) e
    finish_costed turn costed none =
        finish_answered turn
          (push_message amounts provider host costed (assistant_message message_id turn.text))
          request.answer_refused

    -- from the usage that resolved to the return
    unfoldable pub finish_turn :
        Turn amounts provider host
        → ModelGateway amounts provider × Result (CostBuckets amounts)
        → Agent amounts provider host × TurnResult amounts provider host
    unfolding fail_turn push_message
    finish_turn turn (gateway, err e) = fail_turn turn (catalog_error e)
    finish_turn turn (gateway, ok cost) =
        let charged = record turn.agent { gateway = gateway } in
        let costed = emitting charged (
          cost_updated (record {
            run = gateway.meter.run;
            session = gateway.meter.session;
            delta = cost;
            model = turn.agent.current_alias;
          })) in
        finish_costed turn costed request.cost_refused

    -- behind the loop over the stream
    unfoldable pub end_turn :
        Looped amounts provider host
        → Ending amounts provider host
        → Agent amounts provider host × TurnResult amounts provider host
    unfolding finish_turn
    end_turn (throws turn e) ending = fail_turn turn e
    end_turn (continues turn) (stream_throws e) = fail_turn turn e
    end_turn (continues turn) (usage_rejects e) =
        fail_turn (record turn { agent = emitting turn.agent (message_finished message_id) }) e
    end_turn (continues turn) (usage_resolves usage) =
        let closed = record turn { agent = emitting turn.agent (message_finished message_id) } in
        finish_turn closed (
          record_usage amounts provider closed.agent.gateway closed.agent.current_alias usage
            closed.web_searches)

    abbrev pub start_turn : Agent amounts provider host → Turn amounts provider host
    start_turn agent = record {
      agent = agent;
      text = [];
      web_searches = 0;
      step_number = 0;
      tool_calls_this_step = 0;
      stream_error = none;
      requests = [];
    }

    -- the body of the `try`
    unfoldable pub try_turn :
        Agent amounts provider host
        → Resolution amounts provider
        → Agent amounts provider host × TurnResult amounts provider host
    unfolding end_turn opening
    try_turn agent (over_budget exceeded) = fail_turn (start_turn agent) (budget_error exceeded)
    try_turn agent (refused e) = fail_turn (start_turn agent) (catalog_error e)
    try_turn agent (resolved model) =
        let turn = record (start_turn (emitting agent (message_started message_id))) {
          requests = opening agent request.extra ∷ [];
        } in
        end_turn (run_stream amounts provider host run_id message_id model turn request.events)
          request.ending

    -- up to the user's `onMessage`
    unfoldable pub ask : Agent amounts provider host → Agent amounts provider host
    unfolding push_message
    ask agent =
        let fresh = record agent { gateway = start_gateway_run amounts provider agent.gateway } in
        push_message amounts provider host fresh
          (user_message request.user_id request.user_text request.attachments)

    -- up to the `try`
    unfoldable pub begin_turn : Agent amounts provider host → Agent amounts provider host
    unfolding emit ask
    begin_turn agent =
        emitting (emitting (ask agent) (run_started agent.thread_id)) (status thinking)

    -- `send` where the user's `onMessage` returns
    unfoldable pub send :
        Agent amounts provider host → Agent amounts provider host × TurnResult amounts provider host
    unfolding begin_turn try_turn
    send agent =
        let begun = begin_turn agent in
        try_turn begun
          (resolve_model amounts provider begun.gateway begun.current_alias begun.config.role)

    -- `send`, which rejects where the user's `onMessage` throws: that call stands before the `try`
    unfoldable pub send_or_reject : Agent amounts provider host → Sent
    unfolding ask send
    send_or_reject agent = elim request.asked_refused [
      | none ↦ returned (send agent)
      | some e ↦ rejected (ask agent) e
    ]

  pub data Switch : Type 0 where
    switched : Agent amounts provider host → Switch
    unknown_model : CatalogError → Switch
    unsafe_switch : Switch

  abbrev pub switch_between :
      Agent amounts provider host
      → Str
      → Bool
      → Result (ModelEntry amounts)
      → Result (ModelEntry amounts)
      → Switch
  switch_between agent alias boundary (err e) to = unknown_model e
  switch_between agent alias boundary (ok from) (err e) = unknown_model e
  switch_between agent alias boundary (ok from) (ok to) =
      if is_switch_safe lower (vendor_of_model from.upstream_model)
        (vendor_of_model to.upstream_model) boundary
      then switched (
          emit amounts provider host (record agent { current_alias = alias }) agent.thread_id
            (model_switched agent.current_alias alias boundary))
      else unsafe_switch

  -- `switchModel`; an agent that is not returned is left as it was.
  unfoldable pub switch_model : Agent amounts provider host → Str → Bool → Switch
  unfolding emit
  switch_model agent alias at_compaction_boundary =
      switch_between agent alias at_compaction_boundary
        (get_entry amounts agent.gateway.catalog agent.current_alias)
        (get_entry amounts agent.gateway.catalog alias)
