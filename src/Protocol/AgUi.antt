-- ===== src/Protocol/AgUi.antt =====
-- packages/protocol/src/agui.ts: the events on the AG-UI wire. The SDK's event is rendered as far as
-- the projection builds it; the value of a CUSTOM event is the object literal of its case.
pub mod Throws
pub mod Tests
use open_source_harness.Common.{
  ℕ, Bool, Option, none, some, List, [], ◌∷◌, ◌++◌, Str, codes, decimal,
}
use open_source_harness.Protocol.Messages.{Unknown, undefined, null, string, object}
use open_source_harness.Protocol.Cost.{Amounts, CostBuckets}
use open_source_harness.Protocol.Events.{
  AgentState, FinishReason, FileOp, Decision, Compaction, WorkspaceEvent, Body, run_started,
  run_finished, run_error, status, message_started, message_delta, message_finished,
  reasoning_delta, reasoning_artifact, tool_call_started, tool_call_finished, step_started,
  step_finished, subagent_started, subagent_finished, SubagentFinished, source_cited,
  approval_requested, approval_resolved, context_compacted, model_switched, cost_updated,
  workspace_file_changed,
}

-- The conversions of the language: `JSON.stringify`, `none` where it throws and `some none` where it
-- gives undefined, and `String(value)`, `none` where it throws.
pub record Serialiser : Type 0 where
  pub stringify : Unknown → Option (Option Str)
  pub to_string : Unknown → Option Str
  -- `JSON.stringify({})`
  pub empty_object : Str

module _ (amounts : Amounts) where
  pub data CustomValue : Type 0 where
    subagent_started_value : Str → Str → CustomValue
    subagent_finished_value : SubagentFinished amounts → CustomValue
    source_value : Str → Str → Str → CustomValue
    approval_requested_value : Str → Str → Str → Bool → Unknown → CustomValue
    approval_resolved_value : Str → Decision → CustomValue
    compacted_value : Compaction → CustomValue
    switched_value : Str → Str → Bool → CustomValue
    cost_value : CostBuckets amounts → CostBuckets amounts → CustomValue
    file_value : Str → FileOp → CustomValue
    status_value : AgentState → CustomValue

  -- `EventType` with the properties of each event, the timestamp first
  pub data BaseEvent : Type 0 where
    custom : ℕ → Str → CustomValue → BaseEvent
    run_started_event : ℕ → Str → Str → BaseEvent
    run_finished_event : ℕ → Str → Str → FinishReason → BaseEvent
    run_error_event : ℕ → Str → BaseEvent
    text_message_start : ℕ → Str → BaseEvent
    text_message_content : ℕ → Str → Str → BaseEvent
    text_message_end : ℕ → Str → BaseEvent
    reasoning_message_content : ℕ → Str → Str → BaseEvent
    reasoning_encrypted_value : ℕ → Str → Str → BaseEvent
    tool_call_start : ℕ → Str → Str → BaseEvent
    tool_call_args : ℕ → Str → Str → BaseEvent
    tool_call_end : ℕ → Str → BaseEvent
    tool_call_result : ℕ → Str → Str → Str → BaseEvent
    step_started_event : ℕ → Str → BaseEvent
    step_finished_event : ℕ → Str → BaseEvent

  module _ (serialiser : Serialiser) where
    open serialiser use {stringify, to_string, empty_object}

    abbrev pub text_or : Str → Option Str → Str
    text_or fallback none = fallback
    text_or fallback (some s) = s

    abbrev pub stringified_or : Option Str → Option (Option Str) → Option Str
    stringified_or caught none = caught
    stringified_or caught (some s) = some (text_or [] s)

    -- `none` where the `String(result)` of its `catch` throws
    unfoldable pub stringify_result : Unknown → Option Str
    stringify_result (string s) = some s
    stringify_result undefined = stringified_or (to_string undefined) (stringify undefined)
    stringify_result null = stringified_or (to_string null) (stringify null)
    stringify_result (object n) = stringified_or (to_string (object n)) (stringify (object n))

    -- `JSON.stringify(event.args ?? {})`, `none` where it throws
    abbrev pub stringify_args : Unknown → Option Str
    stringify_args undefined = some empty_object
    stringify_args null = some empty_object
    stringify_args (string s) = elim (stringify (string s)) [
      | none ↦ none
      | some t ↦ some (text_or (codes "undefined") t)
    ]
    stringify_args (object n) = elim (stringify (object n)) [
      | none ↦ none
      | some t ↦ some (text_or (codes "undefined") t)
    ]

    unfoldable pub step_name : ℕ → Str
    step_name n = codes "step-" ++ decimal n

    abbrev pub started_call : ℕ → Str → Str → Option Str → Option (List BaseEvent)
    started_call ts id name none = none
    started_call ts id name (some args) =
        some (tool_call_start ts id name ∷ tool_call_args ts id args ∷ [])

    abbrev pub finished_call : ℕ → Str → Option Str → Option (List BaseEvent)
    finished_call ts id none = none
    finished_call ts id (some result) =
        some (tool_call_end ts id ∷ tool_call_result ts id id result ∷ [])

    abbrev pub custom_event : ℕ → Str → CustomValue → Option (List BaseEvent)
    custom_event ts name value = some (custom ts name value ∷ [])

    -- `none` where it throws: the arguments or the result of a tool call cannot be rendered.
    unfoldable pub project : Str → Str → ℕ → Body amounts → Option (List BaseEvent)
    unfolding stringify_result step_name
    project thread run ts (run_started id) = some (run_started_event ts id run ∷ [])
    project thread run ts (run_finished reason) =
        some (run_finished_event ts thread run reason ∷ [])
    project thread run ts (run_error message) = some (run_error_event ts message ∷ [])
    project thread run ts (message_started id) = some (text_message_start ts id ∷ [])
    project thread run ts (message_delta id delta) = some (text_message_content ts id delta ∷ [])
    project thread run ts (message_finished id) = some (text_message_end ts id ∷ [])
    project thread run ts (reasoning_delta id delta) =
        some (reasoning_message_content ts id delta ∷ [])
    project thread run ts (reasoning_artifact id vendor value) =
        some (reasoning_encrypted_value ts id value ∷ [])
    project thread run ts (tool_call_started id name args) =
        started_call ts id name (stringify_args args)
    project thread run ts (tool_call_finished id result is_error) =
        finished_call ts id (stringify_result result)
    project thread run ts (step_started n active) = some (step_started_event ts (step_name n) ∷ [])
    project thread run ts (step_finished s) =
        some (step_finished_event ts (step_name s.step_number) ∷ [])
    project thread run ts (subagent_started id task) =
        custom_event ts (codes "workspace.subagent.started") (subagent_started_value id task)
    project thread run ts (subagent_finished s) =
        custom_event ts (codes "workspace.subagent.finished") (subagent_finished_value s)
    project thread run ts (source_cited id url title) =
        custom_event ts (codes "workspace.source.cited") (source_value id url title)
    project thread run ts (approval_requested r) =
        custom_event ts (codes "workspace.approval.requested")
          (approval_requested_value r.approval_id r.tool_call_id r.reason r.irreversible r.payload)
    project thread run ts (approval_resolved id decision) =
        custom_event ts (codes "workspace.approval.resolved") (approval_resolved_value id decision)
    project thread run ts (context_compacted c) =
        custom_event ts (codes "workspace.context.compacted") (compacted_value c)
    project thread run ts (model_switched from to boundary) =
        custom_event ts (codes "workspace.model.switched") (switched_value from to boundary)
    project thread run ts (cost_updated c) =
        custom_event ts (codes "workspace.cost.updated") (cost_value c.run c.session)
    project thread run ts (workspace_file_changed path op) =
        custom_event ts (codes "workspace.file.changed") (file_value path op)
    project thread run ts (status state) =
        custom_event ts (codes "workspace.status") (status_value state)

    unfoldable pub to_ag_ui : WorkspaceEvent amounts → Str → Option (List BaseEvent)
    unfolding project
    to_ag_ui event thread_id = project thread_id event.run_id event.ts event.body
