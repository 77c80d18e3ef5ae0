-- ===== src/Subagents/Scout.antt =====
-- packages/subagents/src/scout.ts: one run of a read-only subagent, on the agent of
-- packages/core/src/agent.ts. What its SDK does and the random ids are arguments; the tools are the
-- SDK's.
use mathlib.Core.Path.{subst}
use open_source_harness.Common.{
  refl, ℕ, ◌≡◌, ◌≢◌, sym, ap, ◌∙◌, true, Option, none, some, List, [], ◌∷◌, ◌++◌, Str, codes,
  length, All, In, In-append_left,
}
use open_source_harness.Protocol.Messages.{FilePart}
use open_source_harness.Protocol.Cost.{Amounts, CostBuckets, zero_cost, add_cost}
use open_source_harness.Protocol.Events.{
  FinishReason, complete, Body, subagent_started, subagent_finished,
}
use open_source_harness.Gateway.Budget.{Meter, new_meter, start_run}
use open_source_harness.Gateway.Catalog.{ModelCatalog}
use open_source_harness.Gateway.Service.{Provider, ModelGateway, ResolvedModel, start_gateway_run}
use open_source_harness.Core.Pinning.{OrgPolicy, rule_line}
use open_source_harness.Core.Pinning.Policy.{Contains}
use open_source_harness.Core.Agent.{
  AgentConfig, Host, TurnError, Agent, TurnEvent, Ending, Turn, run_stream, TurnResult,
}
use open_source_harness.Core.Agent.Send.{Request, opening, send}
use open_source_harness.Core.Agent.Ceiling.{is_uncharged, failed_send_costs_nothing}
use open_source_harness.Core.Agent.Requests.{requests_left, every_request_states_rule}

abbrev pub scout_rules : List Str
scout_rules =
    codes
      "You are a read-only research subagent. You cannot write files, run commands, or make changes."
    ∷ codes
        "Report what you found and where. Cite workspace paths and line numbers so the answer can be checked."
    ∷ codes
        "Be brief. Your entire output is pasted into another agent’s context, so length there is a cost you are spending on its behalf."
    ∷ []

unfoldable pub scout_policy : OrgPolicy → OrgPolicy
scout_policy policy = record policy {
  permissions = codes "read" ∷ [];
  constraints = policy.constraints ++ scout_rules;
}

abbrev pub or_default_tokens : Option ℕ → ℕ
or_default_tokens none = 40000
or_default_tokens (some n) = n

module _ (amounts : Amounts) (provider : Provider) (host : Host amounts provider) where
  -- `create_gateway` opens the scout's own gateway, or is that of its tests.
  pub record ScoutOptions : Type 0 where
    pub task : Str
    pub policy : OrgPolicy
    pub model_alias : Option Str
    pub budget_usd : Option amounts.Amount
    pub context_max_tokens : Option ℕ
    pub attachments : Option (List FilePart)
    pub read_bytes : Str → Option ℕ

  -- the random ids, and what the SDK does
  pub record ScoutRun : Type 0 where
    pub subagent_id : Str
    pub thread_id : Str
    pub run_id : Str
    pub user_id : Str
    pub message_id : Str
    pub events : List (TurnEvent amounts provider host)
    pub ending : Ending amounts provider host

  pub record ScoutResult : Type 0 where
    pub subagent_id : Str
    pub task : Str
    pub report : Str
    pub cost : CostBuckets amounts
    pub stopped_by : FinishReason
    pub error : Option (TurnError amounts provider host)

  -- DEFAULT_SCOUT_BUDGET_USD
  abbrev pub budget_of : Option amounts.Amount → amounts.Amount
  budget_of none = amounts.literal 25 2
  budget_of (some usd) = usd

  -- `new ModelGateway({ limits })`
  abbrev pub scout_gateway :
      ModelCatalog amounts → provider.Tools → amounts.Amount → ModelGateway amounts provider
  scout_gateway catalog tools budget = record {
    catalog = catalog;
    meter = new_meter amounts;
    limits = record { per_run_usd = budget; per_session_usd = budget };
    provider_tools = tools;
  }

  abbrev pub alias_of : Option Str → Str
  alias_of none = codes "Light"
  alias_of (some alias) = alias

  abbrev pub files_of : Option (List FilePart) → List FilePart
  files_of none = []
  files_of (some files) = files

  unfoldable pub scout_agent :
      ScoutOptions → ModelGateway amounts provider → Str → Agent amounts provider host
  unfolding scout_policy
  scout_agent options gateway thread_id = record {
    config = record {
      policy = scout_policy options.policy;
      role = options.policy.role;
      context_max_tokens = some (or_default_tokens options.context_max_tokens);
      persist_tool_output = none;
      summarise = none;
      read_attachment = some options.read_bytes;
    };
    gateway = gateway;
    history = [];
    thread_id = thread_id;
    current_alias = alias_of options.model_alias;
    stored = [];
    emitted = [];
  }

  -- a scout's agent has no `onMessage` and no `onEvent`
  abbrev pub scout_request : ScoutOptions → ScoutRun → Request amounts provider host
  scout_request options run = record {
    user_text = options.task;
    attachments = files_of options.attachments;
    run_id = run.run_id;
    user_id = run.user_id;
    message_id = run.message_id;
    extra = none;
    events = run.events;
    ending = run.ending;
    asked_refused = none;
    cost_refused = none;
    answer_refused = none;
  }

  module _ (message_of : TurnError amounts provider host → Str)
      (create_gateway : amounts.Amount → ModelGateway amounts provider) where
    abbrev pub scout_turn :
        ScoutOptions → ScoutRun → Agent amounts provider host × TurnResult amounts provider host
    scout_turn options run =
        send amounts provider host message_of (scout_request options run)
          (scout_agent options (create_gateway (budget_of options.budget_usd)) run.thread_id)

    abbrev pub result_of :
        ScoutOptions
        → ScoutRun
        → Agent amounts provider host × TurnResult amounts provider host
        → ScoutResult
    result_of options run (agent, turn) = record {
      subagent_id = run.subagent_id;
      task = options.task;
      report = turn.text;
      cost = agent.gateway.meter.session;
      stopped_by = turn.stopped_by;
      error = turn.error;
    }

    -- the events on the stream of the parent, and the result
    unfoldable pub spawn_scout : ScoutOptions → ScoutRun → List (Body amounts) × ScoutResult
    unfolding send scout_agent
    spawn_scout options run =
        let result = result_of options run (scout_turn options run) in
        (
          subagent_started run.subagent_id options.task
              ∷ subagent_finished (record {
                subagent_id = run.subagent_id;
                cost = result.cost;
                stopped_by = result.stopped_by;
                report_chars = length result.report;
              })
              ∷ [],
          result,
        )

  -- the spend of the scouts
  unfoldable pub total_scout_cost : CostBuckets amounts → List ScoutResult → CostBuckets amounts
  unfolding add_cost
  total_scout_cost total [] = total
  total_scout_cost total (r ∷ results) = total_scout_cost (add_cost amounts total r.cost) results

  -- A scout that does not complete reports that it cost nothing, whatever it streamed, so nothing of
  -- it reaches the total of the session. This needs its gateway to start with nothing spent, and no
  -- tool of the scout to record a cost.
  pub failed_scout_costs_nothing :
      (message_of : TurnError amounts provider host → Str)
      (create_gateway : amounts.Amount → ModelGateway amounts provider) (options : ScoutOptions)
      (run : ScoutRun)
      → (create_gateway (budget_of options.budget_usd)).meter ≡ new_meter amounts
      → All (λ event. is_uncharged amounts provider host event ≡ true) run.events
      → (spawn_scout message_of create_gateway options run).1.stopped_by ≢ complete
      → (spawn_scout message_of create_gateway options run).1.cost ≡ zero_cost amounts
  unfolding spawn_scout start_gateway_run start_run scout_agent
  failed_scout_costs_nothing message_of create_gateway options run fresh u failed =
      ap (λ (g : ModelGateway amounts provider). g.meter.session)
        (failed_send_costs_nothing amounts provider host message_of (scout_request options run)
          (scout_agent options (create_gateway (budget_of options.budget_usd)) run.thread_id) u refl
          refl failed)
      ∙ ap (λ (m : Meter amounts). m.session) fresh

  -- Each request of a scout states each rule of the organisation that its parent is under, whatever
  -- else it is told.
  pub scout_states_rule :
      (options : ScoutOptions) (gateway : ModelGateway amounts provider) (thread_id : Str)
      (run_id message_id : Str) (model : ResolvedModel amounts provider)
      (t : Turn amounts provider host) (events : List (TurnEvent amounts provider host)) (c : Str)
      → t.agent.config ≡ (scout_agent options gateway thread_id).config
      → t.requests ≡ opening amounts provider host t.agent none ∷ []
      → In c options.policy.constraints
      → All
          (λ r. Contains r.instructions (rule_line c))
          (requests_left amounts provider host
            (run_stream amounts provider host run_id message_id model t events))
  unfolding scout_agent scout_policy
  scout_states_rule options gateway thread_id run_id message_id model t events c same first i =
      every_request_states_rule amounts provider host run_id message_id model t none events c first
        (subst (λ (config : AgentConfig). In c config.policy.constraints) (sym same)
          (In-append_left c options.policy.constraints scout_rules i))
