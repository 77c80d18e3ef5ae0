-- ===== src/Core/Agent/Tests.antt =====
-- packages/core/src/agent.ts: a turn with a tool call, one that its stream breaks off, and instances
-- of the theorems. Prices are whole cents, and a model is the name that opens it.
use open_source_harness.Common.{
  decimal, arith, ℕ, ◌≡◌, ◌≢◌, refl, false, none, some, List, [], ◌∷◌, ◌++◌, codes, All, here,
  str_eq, includes, before_first,
}
use open_source_harness.Common.Dict.{get, member}
use open_source_harness.Protocol.Messages.{object}
use open_source_harness.Protocol.Cost.{zero_cost}
use open_source_harness.Protocol.Events.{
  FinishReason, Body, WorkspaceEvent, message_started, tool_call_started, step_finished,
  message_delta, run_error, model_switched, complete, error, run_finished, status, idle,
}
use open_source_harness.Gateway.Budget.{price_usage_report, assert_can_proceed, start_run}
use open_source_harness.Gateway.Budget.Tests.{cents, report}
use open_source_harness.Gateway.Catalog.{resolve, get_entry, permits, rates_for}
use open_source_harness.Gateway.Catalog.Default.{standard_entry}
use open_source_harness.Gateway.Artifacts.{is_switch_safe, same_provider, normalise}
use open_source_harness.Gateway.Service.{
  ResolvedModel, start_gateway_run, resolve_model, offer, vendor_of, price_only,
}
use open_source_harness.Gateway.Service.Tests.{names, gateway}
use open_source_harness.Core.Pinning.{rule_line}
use open_source_harness.Core.Pinning.Policy.{Contains}
use open_source_harness.Core.Pinning.Tests.{policy, shown, rule}
use open_source_harness.Core.Condenser.Tests.{plain}
use open_source_harness.Core.Agent.{
  Host, vendor_of_model, other_error, Agent, text_start, text_delta, finish_step, tool_call_part,
  tool_result_part, error_part, TurnEvent, prepares, streams, usage_resolves, stream_throws, Turn,
  run_stream, emit, push_message, handle_part, turn_event,
}
use open_source_harness.Core.Agent.Send.{
  Request, send_or_reject, opening, start_turn, begin_turn, send, switched, switch_model, try_turn,
  end_turn, fail_turn,
}
use open_source_harness.Core.Agent.Stream.{Grows, run_stream-Grows}
use open_source_harness.Core.Agent.Outcome.{IsSent, send-IsClosed}
use open_source_harness.Core.Agent.Ceiling.{failed_send_costs_nothing}
use open_source_harness.Core.Agent.Requests.{requests_left, every_request_states_rule}
use open_source_harness.Protocol.AgUi.{
  Serialiser, BaseEvent, text_message_start, tool_call_start, tool_call_args, step_finished_event,
  text_message_content, run_error_event, run_finished_event, custom, status_value, project,
  step_name, to_ag_ui,
}
use open_source_harness.Core.Agent.Wire.{
  IsProjected, event_then, nothing_left, wire_text, wire_text-send,
}

abbrev pub host : Host cents names
host = record {
  runtime = plain;
  to_fixed = shown;
  clock = λ n. n;
  tool_names = λ tools. tools;
  error_object = λ message. object 0;
}

abbrev pub agent : Agent cents names host
agent = record {
  config = record {
    policy = policy;
    role = codes "staff";
    context_max_tokens = none;
    persist_tool_output = none;
    summarise = none;
    read_attachment = none;
  };
  gateway = gateway;
  history = [];
  thread_id = codes "t1";
  current_alias = codes "Standard";
  stored = [];
  emitted = [];
}

-- One step with a tool call, then the answer.
abbrev pub events : List (TurnEvent cents names host)
events =
    streams (tool_call_part (codes "c1") (codes "read_file") (object 1))
    ∷ streams (tool_result_part (codes "c1") (object 2))
    ∷ streams (finish_step (some report) 0 none none)
    ∷ prepares (record { messages = []; active = none; extra = none })
    ∷ streams text_start
    ∷ streams (text_delta (codes "Done."))
    ∷ streams (finish_step (some report) 0 none none)
    ∷ []

abbrev pub request : Request cents names host
request = record {
  user_text = codes "Read it.";
  attachments = [];
  run_id = codes "r1";
  user_id = codes "u1";
  message_id = codes "m1";
  extra = some (codes "Be brief.");
  events = events;
  ending = usage_resolves (some report);
  asked_refused = none;
  cost_refused = none;
  answer_refused = none;
}

-- The stream reports an error behind the first step, and throws.
abbrev pub broken : Request cents names host
broken = record request {
  events =
      streams (tool_call_part (codes "c1") (codes "read_file") (object 1))
      ∷ streams (finish_step (some report) 0 none none)
      ∷ streams (text_delta (codes "Let"))
      ∷ streams (error_part other_error)
      ∷ [];
  ending = stream_throws other_error;
}

-- The store refuses the answer.
abbrev unstored : Request cents names host
unstored = record request { answer_refused = some other_error }

abbrev turn : Turn cents names host
turn = record (start_turn cents names host (λ e. []) request agent) {
  requests = opening cents names host agent (some (codes "Be brief.")) ∷ [];
}

abbrev pub model : ResolvedModel cents names
model = offer cents names gateway (standard_entry cents)

run_stream-Grows_example :
    Grows cents names host turn
      (run_stream cents names host (codes "r1") (codes "m1") model turn events)
run_stream-Grows_example =
    run_stream-Grows cents names host (codes "r1") (codes "m1") model turn events

send-IsClosed_example :
    IsSent cents names host
      (λ e. [])
      unstored
      agent
      (send_or_reject cents names host (λ e. []) unstored agent)
send-IsClosed_example = send-IsClosed cents names host (λ e. []) unstored agent

every_request_states_rule_example :
    All
      (λ r. Contains r.instructions (rule_line rule))
      (requests_left cents names host
        (run_stream cents names host (codes "r1") (codes "m1") model turn events))
every_request_states_rule_example =
    every_request_states_rule cents names host (codes "r1") (codes "m1") model turn
      (some (codes "Be brief.")) events rule refl (here refl)

sealed : Unit {0}
unfolding to_ag_ui project step_name decimal send begin_turn try_turn end_turn fail_turn
    push_message emit start_gateway_run start_run resolve_model offer vendor_of assert_can_proceed
    resolve get_entry get permits member str_eq run_stream turn_event handle_part rates_for
    zero_cost price_only switch_model vendor_of_model includes before_first is_switch_safe
    same_provider normalise
sealed = tt

-- The failed turn has streamed a step, and its result says so.
breaks :
    ((send cents names host (λ e. []) broken agent).1.stopped_by ≡ error)
    × ((send cents names host (λ e. []) broken agent).1.text ≡ codes "Let")
unfolding sealed
breaks = (refl, refl)

-- A run that ends in an error is not complete.
pub unfinished : (r : FinishReason) → r ≡ error → r ≢ complete
unfinished r h k = ground arith

failed_send_costs_nothing_example :
    (send cents names host (λ e. []) broken agent).0.gateway ≡ start_gateway_run cents names gateway
failed_send_costs_nothing_example =
    failed_send_costs_nothing cents names host (λ e. []) broken agent
      (refl, (refl, (refl, (refl, tt)))) refl refl (unfinished _ breaks.0)

abbrev upgraded : Agent cents names host
upgraded =
    emit cents names host (record agent { current_alias = codes "Premium" }) (codes "t1")
      (model_switched (codes "Standard") (codes "Premium") false)

switches : switch_model cents names host agent (codes "Premium") false ≡ switched upgraded
unfolding sealed
switches = refl

-- What the broken run emits behind its opening, and what an AG-UI shell reads of it.
abbrev sent : Body cents → ℕ → WorkspaceEvent cents
sent body ts = record { run_id = codes "r1"; ts = ts; body = body }

abbrev emitted : List (WorkspaceEvent cents)
emitted =
    sent (message_started (codes "m1")) 2
    ∷ sent (tool_call_started (codes "c1") (codes "read_file") (object 1)) 3
    ∷ sent
        (step_finished (record {
          step_number = 0;
          cost = price_usage_report cents (some report) (standard_entry cents).rates 0;
          tool_calls = 1;
          duration_ms = none;
          finish_reason = none;
        }))
        4
    ∷ sent (message_delta (codes "m1") (codes "Let")) 5
    ∷ sent (run_error []) 6
    ∷ sent (run_finished error) 7
    ∷ sent (status idle) 8
    ∷ []

emits :
    (send cents names host (λ e. []) broken agent).0.emitted
    ≡ (begin_turn cents names host (λ e. []) broken agent).emitted ++ emitted
unfolding sealed
emits = refl

abbrev readable : Serialiser
readable = record {
  stringify = λ value. some (some (codes "{}"));
  to_string = λ value. none;
  empty_object = codes "{}";
}

abbrev wire : List (BaseEvent cents)
wire =
    text_message_start 2 (codes "m1")
    ∷ tool_call_start 3 (codes "c1") (codes "read_file")
    ∷ tool_call_args 3 (codes "c1") (codes "{}")
    ∷ step_finished_event 4 (codes "step-0")
    ∷ text_message_content 5 (codes "m1") (codes "Let")
    ∷ run_error_event 6 []
    ∷ run_finished_event 7 (codes "t1") (codes "r1") error
    ∷ custom 8 (codes "workspace.status") (status_value idle)
    ∷ []

reads : IsProjected cents readable (codes "t1") emitted wire
unfolding sealed
reads = event_then _ refl (
    event_then _ refl (
      event_then _ refl (
        event_then _ refl
          (event_then _ refl (event_then _ refl (event_then _ refl nothing_left))))))

wire_text-send_example :
    wire_text cents wire ≡ (send cents names host (λ e. []) broken agent).1.text
wire_text-send_example =
    wire_text-send cents names host (λ e. []) broken agent readable (codes "t1") emitted wire emits
      reads
