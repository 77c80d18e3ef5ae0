-- ===== src/Core/Agent/Requests.antt =====
-- packages/core/src/agent.ts, what send gives the SDK: the instructions of each request.
use open_source_harness.Common.{
  ℕ, ◌+◌, ◌≡◌, refl, ap, ◌∙◌, inl, inr, Option, none, some, List, [], ◌∷◌, ◌++◌, Str, codes, All,
  All-append, In, Bool-cases, Option-cases, append_assoc, join, trim,
}
use open_source_harness.Protocol.Cost.{Amounts, CostBuckets}
use open_source_harness.Gateway.Artifacts.{
  Prepared, prepared, reasoning_integrity_error, prepare_for_provider,
}
use open_source_harness.Gateway.Budget.{assert_can_proceed}
use open_source_harness.Gateway.Catalog.{Result, ok, err}
use open_source_harness.Gateway.Service.{Provider, ResolvedModel}
use open_source_harness.Core.Pinning.{
  OrgPolicy, rule_line, policy_text, build_policy_message, head_lines, policy_title,
}
use open_source_harness.Core.Pinning.Policy.{Contains, policy_text-states}
use open_source_harness.Core.Condenser.{CondenseResult}
use open_source_harness.Core.Adapter.{to_instructions, join_text, texts}
use open_source_harness.Core.Agent.{
  AgentConfig, append_extra, with_extra, instructions_for, Host, gap_after, emit, emit_compaction,
  Outbound, StepInput, StreamPart, text_start, text_delta, reasoning_delta_part, error_part,
  finish_step, url_source, tool_call_part, tool_result_part, tool_error_part, other_part, TurnEvent,
  prepares, streams, charges, Turn, Looped, continues, throws, send_prepared, send_condensed,
  prepare_step, grow_text, finish_priced, handle_part, turn_event, run_stream,
}
use open_source_harness.Core.Agent.Send.{opening}

append_extra-Contains :
    (s rule extra : Str) → Contains s rule → Contains (append_extra s extra) rule
append_extra-Contains s rule [] contained = contained
append_extra-Contains s rule (c ∷ extra) (before, after, e) = (
  before,
  after ++ (codes "\n\n" ++ c ∷ extra),
  append_assoc s (codes "\n\n") (c ∷ extra)
      ∙ ap (λ t. t ++ (codes "\n\n" ++ c ∷ extra)) e
      ∙ append_assoc (before ++ rule) after (codes "\n\n" ++ c ∷ extra),
)

with_extra-Contains :
    (s rule : Str) (extra : Option Str) → Contains s rule → Contains (with_extra s extra) rule
unfolding with_extra
with_extra-Contains s rule none contained = contained
with_extra-Contains s rule (some extra) contained =
    append_extra-Contains s rule (trim extra) contained

module _ (amounts : Amounts) (provider : Provider) (host : Host amounts provider) where
  pinned_alone :
      (policy : OrgPolicy) (live : Option amounts.Amount)
      → to_instructions (build_policy_message host.to_fixed policy live ∷ [])
        ≡ policy_text host.to_fixed policy live
  unfolding to_instructions build_policy_message join_text texts join policy_text head_lines
      policy_title
  pinned_alone policy live = refl

  instructions_state :
      (config : AgentConfig) (live : Option amounts.Amount) (extra : Option Str) (c : Str)
      → In c config.policy.constraints
      → Contains (instructions_for amounts provider host config live extra) (rule_line c)
  unfolding instructions_for
  instructions_state config live extra c i = with_extra-Contains _ (rule_line c) extra (
      rw (pinned_alone config.policy live)
        (policy_text-states host.to_fixed config.policy live c i))

  -- A turn on behalf of `config`, each of whose requests states the rule `c`.
  pub record IsStated (config : AgentConfig) (c : Str) (t : Turn amounts provider host)
      : Type 0 where
    pub same : t.agent.config ≡ config
    pub stated : All (λ r. Contains r.instructions (rule_line c)) t.requests

  abbrev pub IsLoopStated : AgentConfig → Str → Looped amounts provider host → Type 0
  IsLoopStated config c (continues t) = IsStated config c t
  IsLoopStated config c (throws t e) = IsStated config c t

  module _ (run_id message_id : Str) (model : ResolvedModel amounts provider) (config : AgentConfig)
      (c : Str) where
    -- A change of a turn that sends nothing.
    unsent :
        (t u : Turn amounts provider host)
        → u.agent.config ≡ t.agent.config
        → u.requests ≡ t.requests
        → IsStated config c t
        → IsStated config c u
    unsent t u same_config same_requests w = record {
      same = same_config ∙ w.same;
      stated = rw (same_requests) w.stated;
    }

    text-IsStated :
        (t : Turn amounts provider host) (delta : Str)
        → IsStated config c t
        → IsStated config c (grow_text amounts provider host run_id message_id model t delta)
    unfolding emit
    text-IsStated t [] w = w
    text-IsStated t (d ∷ delta) w = unsent t _ refl refl w

    finish-IsStated :
        (t : Turn amounts provider host) (searches : ℕ) (duration : Option ℕ) (reason : Option Str)
        (price : Result (CostBuckets amounts))
        → IsStated config c t
        → IsLoopStated config c (
            finish_priced amounts provider host run_id message_id model t searches duration reason
              price)
    unfolding emit
    finish-IsStated t searches duration reason (err e) w = w
    finish-IsStated t searches duration reason (ok cost) w = unsent t _ refl refl w

    part-IsStated :
        (t : Turn amounts provider host) (part : StreamPart amounts provider host)
        → IsStated config c t
        → IsLoopStated config c (handle_part amounts provider host run_id message_id model t part)
    unfolding handle_part emit
    part-IsStated t text_start w = text-IsStated t (gap_after t.text) w
    part-IsStated t (text_delta delta) w = unsent t _ refl refl w
    part-IsStated t (reasoning_delta_part delta) w = unsent t _ refl refl w
    part-IsStated t (error_part e) w = unsent t _ refl refl w
    part-IsStated t (finish_step usage searches duration reason) w =
        finish-IsStated (record t { web_searches = t.web_searches + searches }) searches duration
          reason _ (unsent t _ refl refl w)
    part-IsStated t (url_source url title) w = unsent t _ refl refl w
    part-IsStated t (tool_call_part id name input) w = unsent t _ refl refl w
    part-IsStated t (tool_result_part id output) w = unsent t _ refl refl w
    part-IsStated t (tool_error_part id message) w = unsent t _ refl refl w
    part-IsStated t other_part w = w

    compaction-IsStated :
        (t : Turn amounts provider host) (condensed : CondenseResult)
        → IsStated config c t
        → IsStated config c
            (record t { agent = emit_compaction amounts provider host t.agent run_id condensed })
    unfolding emit_compaction emit
    compaction-IsStated t condensed w = elim (Bool-cases condensed.compacted) [
      | inl done ↦ rw (emit_compaction, done) (unsent t _ refl refl w)
      | inr untouched ↦ rw (emit_compaction, untouched) (unsent t _ refl refl w)
    ]

    module _ (i : In c config.policy.constraints) where
      prepared-IsStated :
          (t : Turn amounts provider host) (input : StepInput amounts provider host) (p : Prepared)
          → IsStated config c t
          → IsStated config c
              (send_prepared amounts provider host run_id message_id model t input p)
      unfolding emit
      prepared-IsStated t input (prepared result) w = record {
        same = w.same;
        stated =
            All-append (λ r. Contains r.instructions (rule_line c)) t.requests _ w.stated
              (instructions_state t.agent.config _ input.extra c (rw (w.same) i), tt);
      }
      prepared-IsStated t input (reasoning_integrity_error target missing) w = w

      condensed-IsStated :
          (t : Turn amounts provider host) (input : StepInput amounts provider host)
          (condensed : Option CondenseResult)
          → IsStated config c t
          → IsStated config c
              (send_condensed amounts provider host run_id message_id model t input condensed)
      condensed-IsStated t input none w = w
      condensed-IsStated t input (some condensed) w =
          prepared-IsStated _ input
            (prepare_for_provider provider.lower condensed.messages model.vendor)
            (compaction-IsStated t condensed w)

      prepare_step-IsStated :
          (t : Turn amounts provider host) (input : StepInput amounts provider host)
          → IsStated config c t
          → IsStated config c (prepare_step amounts provider host run_id message_id model t input)
      unfolding prepare_step
      prepare_step-IsStated t input w =
          elim (Option-cases
            (assert_can_proceed amounts t.agent.gateway.limits t.agent.gateway.meter)) [
              | inl clear ↦ rw (prepare_step, clear) (condensed-IsStated t input _ w)
              | inr (exceeded, hit) ↦ rw (prepare_step, hit) w
            ]

      event-IsStated :
          (t : Turn amounts provider host) (event : TurnEvent amounts provider host)
          → IsStated config c t
          → IsLoopStated config c (turn_event amounts provider host run_id message_id model t event)
      unfolding turn_event
      event-IsStated t (prepares input) w = prepare_step-IsStated t input w
      event-IsStated t (streams part) w = part-IsStated t part w
      event-IsStated t (charges cost) w = unsent t _ refl refl w

      loop_stated :
          (t : Turn amounts provider host) (events : List (TurnEvent amounts provider host))
          → IsStated config c t
          → IsLoopStated config c
              (run_stream amounts provider host run_id message_id model t events)
      unfolding run_stream
      loop_stated t [] w = w
      loop_stated t (event ∷ events) w =
          after (turn_event amounts provider host run_id message_id model t event)
            (event-IsStated t event w) (λ next. loop_stated next events)
        where
          after :
              (l : Looped amounts provider host)
              → IsLoopStated config c l
              → ((next : Turn amounts provider host)
                  → IsStated config c next
                  → IsLoopStated config c
                      (run_stream amounts provider host run_id message_id model next events))
              → IsLoopStated config c (elim l [
                | continues next ↦
                    run_stream amounts provider host run_id message_id model next events
                | throws next e ↦ throws next e
              ])
          after (continues next) v rest = rest next v
          after (throws next e) v rest = v

  -- what the SDK was given by the end of the loop
  abbrev pub requests_left : Looped amounts provider host → List (Outbound amounts provider host)
  requests_left (continues t) = t.requests
  requests_left (throws t e) = t.requests

  stated_left :
      (config : AgentConfig) (c : Str) (l : Looped amounts provider host)
      → IsLoopStated config c l
      → All (λ r. Contains r.instructions (rule_line c)) (requests_left l)
  stated_left config c (continues t) w = w.stated
  stated_left config c (throws t e) w = w.stated

  -- Each request of a turn, the first and those of its later steps, states each rule of the policy in
  -- its instructions, verbatim behind a dash, whatever the condenser drops, whatever the history
  -- holds and whatever stands behind the policy.
  pub every_request_states_rule :
      (run_id message_id : Str) (model : ResolvedModel amounts provider)
      (t : Turn amounts provider host) (extra : Option Str)
      (events : List (TurnEvent amounts provider host)) (c : Str)
      → t.requests ≡ opening amounts provider host t.agent extra ∷ []
      → In c t.agent.config.policy.constraints
      → All
          (λ r. Contains r.instructions (rule_line c))
          (requests_left (run_stream amounts provider host run_id message_id model t events))
  unfolding opening
  every_request_states_rule run_id message_id model t extra events c first i =
      stated_left t.agent.config c _ (
        loop_stated run_id message_id model t.agent.config c i t events (record {
          same = refl;
          stated = rw (first) (instructions_state t.agent.config none extra c i, tt);
        }))
