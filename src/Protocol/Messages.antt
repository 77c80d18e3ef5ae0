-- ===== src/Protocol/Messages.antt =====
-- packages/protocol/src/messages.ts: the conversation model.
-- A value of type `unknown` is a string, `null`, `undefined`, or any other value, which is held by
-- reference (a number that stands for it). Binary data is held by reference too.
use open_source_harness.Common.{ℕ, Bool, true, false, List, Option, Str}

pub data Unknown : Type 0 where
  undefined : Unknown
  null : Unknown
  string : Str → Unknown
  object : ℕ → Unknown

pub record ReasoningPart : Type 0 where
  pub text : Str
  pub provider : Str
  pub signature : Option Str

pub record ToolCallPart : Type 0 where
  pub tool_call_id : Str
  pub tool_name : Str
  pub input : Unknown

pub record ToolResultPart : Type 0 where
  pub tool_call_id : Str
  pub tool_name : Str
  pub output : Unknown
  pub is_error : Bool
  pub elided_to : Option Str

-- `bytes` is the `data` property that the adapter sets beside the schema's fields.
pub record FilePart : Type 0 where
  pub path : Option Str
  pub media_type : Str
  pub filename : Option Str
  pub bytes : Option ℕ

pub data Part : Type 0 where
  text : Str → Part
  reasoning : ReasoningPart → Part
  tool_call : ToolCallPart → Part
  tool_result : ToolResultPart → Part
  file : FilePart → Part

pub data Role : Type 0 where
  system user assistant tool : Role

pub record Message : Type 0 where
  pub id : Str
  pub role : Role
  pub parts : List Part
  pub pinned : Bool

-- `p.type === 'tool-call'`, `p.type === 'tool-result'`.
abbrev pub is_tool_call : Part → Bool
is_tool_call (tool_call c) = true
is_tool_call _ = false

abbrev pub is_tool_result : Part → Bool
is_tool_result (tool_result r) = true
is_tool_result _ = false

abbrev pub is_reasoning : Part → Bool
is_reasoning (reasoning r) = true
is_reasoning _ = false
