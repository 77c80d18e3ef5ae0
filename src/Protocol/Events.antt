-- ===== src/Protocol/Events.antt =====
-- packages/protocol/src/events.ts: the events between the agent and a shell. Every event has the id
-- of its run and a time; `data`, the body, is the rest. The zod parsers are a library.
use open_source_harness.Common.{ℕ, Bool, Option, List, Str}
use open_source_harness.Protocol.Messages.{Unknown}
use open_source_harness.Protocol.Cost.{Amounts, CostBuckets}

pub data AgentState : Type 0 where
  idle thinking calling_tool awaiting_approval compacting : AgentState

pub data FinishReason : Type 0 where
  complete aborted error budget_exceeded : FinishReason

pub data FileOp : Type 0 where
  created modified deleted : FileOp

-- `allow` or `deny`
pub data Decision : Type 0 where
  allow deny : Decision

pub record ApprovalRequest : Type 0 where
  pub approval_id : Str
  pub tool_call_id : Str
  pub reason : Str
  pub irreversible : Bool
  pub payload : Unknown
  pub scope : Option Str

pub record Compaction : Type 0 where
  pub strategy : Str
  pub before_messages : ℕ
  pub after_messages : ℕ
  pub before_tokens : ℕ
  pub after_tokens : ℕ

module _ (amounts : Amounts) where
  pub record StepFinished : Type 0 where
    pub step_number : ℕ
    pub cost : CostBuckets amounts
    pub tool_calls : ℕ
    pub duration_ms : Option ℕ
    pub finish_reason : Option Str

  pub record SubagentFinished : Type 0 where
    pub subagent_id : Str
    pub cost : CostBuckets amounts
    pub stopped_by : FinishReason
    pub report_chars : ℕ

  pub record CostUpdated : Type 0 where
    pub run : CostBuckets amounts
    pub session : CostBuckets amounts
    pub delta : CostBuckets amounts
    pub model : Str

  pub data Body : Type 0 where
    run_started : Str → Body
    run_finished : FinishReason → Body
    run_error : Str → Body
    status : AgentState → Body
    message_started : Str → Body
    message_delta : Str → Str → Body
    message_finished : Str → Body
    reasoning_delta : Str → Str → Body
    reasoning_artifact : Str → Str → Str → Body
    tool_call_started : Str → Str → Unknown → Body
    tool_call_finished : Str → Unknown → Bool → Body
    step_started : ℕ → Option (List Str) → Body
    step_finished : StepFinished → Body
    subagent_started : Str → Str → Body
    subagent_finished : SubagentFinished → Body
    source_cited : Str → Str → Str → Body
    approval_requested : ApprovalRequest → Body
    approval_resolved : Str → Decision → Body
    context_compacted : Compaction → Body
    model_switched : Str → Str → Bool → Body
    cost_updated : CostUpdated → Body
    workspace_file_changed : Str → FileOp → Body

  pub record WorkspaceEvent : Type 0 where
    pub run_id : Str
    pub ts : ℕ
    pub body : Body
