-- ===== src/Core/Agent.antt =====
-- packages/core/src/agent.ts: the loop of the agent. The SDK streams the turn: it calls prepareStep
-- before each request and yields the parts of the stream, and the tools that it runs may record a
-- cost on the gateway's meter. What it does is the argument of `send`, in the order in which it
-- happens. Random ids are arguments too, and the n-th event that an agent emits is stamped with the
-- n-th reading of the clock.
pub mod Send
pub mod Trace
pub mod Stream
pub mod Outcome
pub mod Ceiling
pub mod Wire
pub mod Tests
pub mod Switching
pub mod Requests
use open_source_harness.Common.{
  ℕ, suc, ◌+◌, ◌≡◌, Bool, true, false, not, ◌&&◌, Option, none, some, List, [], ◌∷◌, ◌++◌, Str,
  codes, str_eq, length, ends_with, trim, ltb, includes, before_first, if◌then◌else◌,
}
use open_source_harness.Protocol.Messages.{
  Unknown, Part, FilePart, text, file, user, assistant, Message,
}
use open_source_harness.Protocol.Cost.{Amounts, CostBuckets}
use open_source_harness.Protocol.Events.{
  FinishReason, complete, error, budget_exceeded, thinking, idle, Body, run_started, run_finished,
  run_error, status, message_started, message_delta, message_finished, reasoning_delta,
  tool_call_started, tool_call_finished, step_started, step_finished, source_cited,
  context_compacted, model_switched, cost_updated, WorkspaceEvent,
}
use open_source_harness.Gateway.Artifacts.{
  Prepared, prepared, reasoning_integrity_error, StripResult, is_switch_safe, prepare_for_provider,
}
use open_source_harness.Gateway.Budget.{
  LanguageModelUsage, BudgetExceeded, assert_can_proceed, record_cost, remaining,
}
use open_source_harness.Gateway.Catalog.{ModelEntry, CatalogError, Result, ok, err, get_entry}
use open_source_harness.Gateway.Service.{
  Provider, ModelGateway, ResolvedModel, Resolution, resolved, over_budget, refused, resolve_model,
  price_only, record_usage, start_gateway_run,
}
use open_source_harness.Core.Tokens.{Runtime}
use open_source_harness.Core.Pinning.{OrgPolicy, build_policy_message}
use open_source_harness.Core.Condenser.{CondenserOptions, CondenseResult, condense}
use open_source_harness.Core.Adapter.{
  ModelMessage, non_empty, to_model_messages, from_model_messages, to_instructions,
}
use open_source_harness.Core.Adapter.Attachments.{resolve_attachments}

-- `additional ? … : instructions` for text that has been trimmed
abbrev pub append_extra : Str → Str → Str
append_extra instructions [] = instructions
append_extra instructions (c ∷ additional) = instructions ++ codes "\n\n" ++ c ∷ additional

unfoldable pub with_extra : Str → Option Str → Str
unfolding trim
with_extra instructions none = instructions
with_extra instructions (some extra) = append_extra instructions (trim extra)

-- the vendor as `switchModel` reads it, which keeps its case
unfoldable pub vendor_of_model : Str → Str
vendor_of_model upstream_model =
    if includes b'/' upstream_model then before_first b'/' upstream_model else upstream_model

-- What separates the text of a step from that of the one before.
unfoldable pub gap_after : Str → Str
gap_after s =
    if ltb 0 (length s) && not (ends_with s (codes "\n\n"))
    then (if ends_with s (codes "\n") then codes "\n" else codes "\n\n")
    else []

pub record AgentConfig : Type 0 where
  pub policy : OrgPolicy
  pub role : Str
  pub context_max_tokens : Option ℕ
  pub persist_tool_output : Option (Str → Unknown → Option Str)
  pub summarise : Option (List Message → Option Str)
  pub read_attachment : Option (Str → Option ℕ)

-- The calls of the session that the code leaves to the language and the SDK.
pub record Host (amounts : Amounts) (provider : Provider) : Type 0 where
  pub runtime : Runtime
  pub to_fixed : amounts.Amount → Str
  pub clock : ℕ → ℕ
  -- `Object.keys` of the tools that the provider runs
  pub tool_names : provider.Tools → List Str
  -- `{ error: message }`
  pub error_object : Str → Unknown

unfoldable pub condenser_options : AgentConfig → CondenserOptions
condenser_options config = record {
  max_tokens = elim config.context_max_tokens [ none ↦ 100000 | some n ↦ n ];
  keep_recent = 6;
  keep_first = 1;
  elide_tool_outputs_over_chars = 2000;
  persist_tool_output = config.persist_tool_output;
  summarise = config.summarise;
}

module _ (amounts : Amounts) (provider : Provider) (host : Host amounts provider) where
  open provider use {lower}
  open host use {runtime, to_fixed, clock, tool_names, error_object}

  pub data TurnError : Type 0 where
    budget_error : BudgetExceeded amounts → TurnError
    catalog_error : CatalogError → TurnError
    integrity_error : Str → ℕ → TurnError
    other_error : TurnError

  -- `stored` is what `onMessage` was called with, `emitted` what `onEvent` was.
  pub record Agent : Type 0 where
    pub config : AgentConfig
    pub gateway : ModelGateway amounts provider
    pub history : List Message
    pub thread_id : Str
    pub current_alias : Str
    pub stored : List Message
    pub emitted : List (WorkspaceEvent amounts)

  unfoldable pub emit : Agent → Str → Body amounts → Agent
  emit agent run_id body = record agent {
    emitted =
        agent.emitted
        ++ record { run_id = run_id; ts = clock (length agent.emitted); body = body } ∷ [];
  }

  unfoldable pub push_message : Agent → Message → Agent
  push_message agent message = record agent {
    history = agent.history ++ message ∷ [];
    stored = agent.stored ++ message ∷ [];
  }

  -- What is sent with a request; `none` is every registered tool.
  pub record Outbound : Type 0 where
    pub instructions : Str
    pub messages : List ModelMessage
    pub active_tools : Option (List Str)

  -- The arguments of a call of prepareStep: the SDK's messages, and what `activeTools` and
  -- `extraInstructions` give when they are called.
  pub record StepInput : Type 0 where
    pub messages : List ModelMessage
    pub active : Option (List Str)
    pub extra : Option Str

  pub data StreamPart : Type 0 where
    text_start : StreamPart
    text_delta reasoning_delta_part : Str → StreamPart
    error_part : TurnError → StreamPart
    finish_step : Option LanguageModelUsage → ℕ → Option ℕ → Option Str → StreamPart
    url_source : Str → Option Str → StreamPart
    tool_call_part : Str → Str → Unknown → StreamPart
    tool_result_part : Str → Unknown → StreamPart
    tool_error_part : Str → Str → StreamPart
    other_part : StreamPart

  pub data TurnEvent : Type 0 where
    prepares : StepInput → TurnEvent
    streams : StreamPart → TurnEvent
    charges : CostBuckets amounts → TurnEvent

  -- How the stream ends: normally, with the usage that resolves or rejects after it, or by throwing.
  pub data Ending : Type 0 where
    usage_resolves : Option LanguageModelUsage → Ending
    usage_rejects stream_throws : TurnError → Ending

  -- The variables of `send`; `requests` is what prepareStep returned so far.
  pub record Turn : Type 0 where
    pub agent : Agent
    pub text : Str
    pub web_searches : ℕ
    pub step_number : ℕ
    pub tool_calls_this_step : ℕ
    pub stream_error : Option TurnError
    pub requests : List Outbound

  pub data Looped : Type 0 where
    continues : Turn → Looped
    throws : Turn → TurnError → Looped

  abbrev pub with_names : Option (List Str) → List Str → Option (List Str)
  with_names none names = none
  with_names (some active) names = some (active ++ names)

  -- the pinned policy, from source, and the standing instructions behind it
  unfoldable pub instructions_for : AgentConfig → Option amounts.Amount → Option Str → Str
  unfolding with_extra
  instructions_for config budget_remaining extra =
      with_extra
        (to_instructions (build_policy_message to_fixed config.policy budget_remaining ∷ [])) extra

  unfoldable pub emit_compaction : Agent → Str → CondenseResult → Agent
  unfolding emit
  emit_compaction agent run_id condensed =
      if condensed.compacted
      then emit agent run_id (
          context_compacted (record {
            strategy = condensed.strategy;
            before_messages = condensed.before.messages;
            after_messages = condensed.after.messages;
            before_tokens = condensed.before.tokens;
            after_tokens = condensed.after.tokens;
          }))
      else agent

  module _ (run_id message_id : Str) (model : ResolvedModel amounts provider) where
    abbrev pub emits : Turn → Body amounts → Turn
    emits turn body = record turn { agent = emit turn.agent run_id body }

    -- the end of prepareStep, behind the condenser
    abbrev pub send_prepared : Turn → StepInput → Prepared → Turn
    send_prepared turn input (reasoning_integrity_error target missing) = turn
    send_prepared turn input (prepared result) =
        let active = with_names input.active (tool_names model.tools) in
        record (emits turn (step_started turn.step_number active)) {
          requests =
              turn.requests
              ++ record {
                instructions =
                    instructions_for turn.agent.config
                      (some
                        (remaining amounts turn.agent.gateway.limits
                          turn.agent.gateway.meter).run_usd)
                      input.extra;
                messages = to_model_messages result.messages;
                active_tools = active;
              }
                ∷ [];
        }

    abbrev pub send_condensed : Turn → StepInput → Option CondenseResult → Turn
    send_condensed turn input none = turn
    send_condensed turn input (some condensed) =
        send_prepared (record turn { agent = emit_compaction turn.agent run_id condensed }) input
          (prepare_for_provider lower condensed.messages model.vendor)

    -- Where prepareStep throws, nothing is sent; what the SDK makes of the error comes back as a part
    -- of the stream.
    unfoldable pub prepare_step : Turn → StepInput → Turn
    unfolding instructions_for emit_compaction emit
    prepare_step turn input =
        elim (assert_can_proceed amounts turn.agent.gateway.limits turn.agent.gateway.meter) [
          | some exceeded ↦ turn
          | none ↦ send_condensed turn input (
              condense runtime (condenser_options turn.agent.config)
                (from_model_messages input.messages))
        ]

    abbrev pub grow_text : Turn → Str → Turn
    grow_text turn [] = turn
    grow_text turn (c ∷ delta) =
        emits (record turn { text = turn.text ++ c ∷ delta }) (message_delta message_id (c ∷ delta))

    abbrev pub finish_priced :
        Turn → ℕ → Option ℕ → Option Str → Result (CostBuckets amounts) → Looped
    finish_priced turn searches duration reason (err e) = throws turn (catalog_error e)
    finish_priced turn searches duration reason (ok step_cost) =
        continues
          (record (emits turn (
            step_finished (record {
              step_number = turn.step_number;
              cost = step_cost;
              tool_calls = turn.tool_calls_this_step;
              duration_ms = duration;
              finish_reason = non_empty reason;
            }))) { step_number = turn.step_number + 1; tool_calls_this_step = 0 })

    abbrev pub or_url : Option Str → Str → Str
    or_url none url = url
    or_url (some title) url = title

    -- the body of the loop over `fullStream`
    unfoldable pub handle_part : Turn → StreamPart → Looped
    unfolding emit
    handle_part turn text_start = continues (grow_text turn (gap_after turn.text))
    handle_part turn (text_delta delta) =
        continues
          (emits (record turn { text = turn.text ++ delta }) (message_delta message_id delta))
    handle_part turn (reasoning_delta_part delta) =
        continues (emits turn (reasoning_delta message_id delta))
    handle_part turn (error_part e) = continues (record turn { stream_error = some e })
    handle_part turn (finish_step usage searches duration reason) =
        finish_priced (record turn { web_searches = turn.web_searches + searches }) searches
          duration reason
          (price_only amounts provider turn.agent.gateway turn.agent.current_alias usage searches)
    handle_part turn (url_source url title) =
        continues (emits turn (source_cited message_id url (or_url title url)))
    handle_part turn (tool_call_part id name input) = continues (
        emits (record turn { tool_calls_this_step = turn.tool_calls_this_step + 1 })
          (tool_call_started id name input))
    handle_part turn (tool_result_part id output) =
        continues (emits turn (tool_call_finished id output false))
    handle_part turn (tool_error_part id message) =
        continues (emits turn (tool_call_finished id (error_object message) true))
    handle_part turn other_part = continues turn

    abbrev pub charge_agent : Agent → CostBuckets amounts → Agent
    charge_agent agent cost = record agent {
      gateway = record agent.gateway { meter = record_cost amounts agent.gateway.meter cost };
    }

    unfoldable pub turn_event : Turn → TurnEvent → Looped
    unfolding prepare_step handle_part
    turn_event turn (prepares input) = continues (prepare_step turn input)
    turn_event turn (streams part) = handle_part turn part
    turn_event turn (charges cost) =
        continues (record turn { agent = charge_agent turn.agent cost })

    unfoldable pub run_stream : Turn → List TurnEvent → Looped
    unfolding turn_event
    run_stream turn [] = continues turn
    run_stream turn (event ∷ events) = elim (turn_event turn event) [
      | continues next ↦ run_stream next events
      | throws next e ↦ throws next e
    ]

  pub record TurnResult : Type 0 where
    pub text : Str
    pub run_id : Str
    pub stopped_by : FinishReason
    pub error : Option TurnError
