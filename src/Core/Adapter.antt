-- ===== src/Core/Adapter.antt =====
-- packages/core/src/adapter.ts: the conversation model and the message types of the AI SDK.
-- The SDK's types are rendered as far as the adapter builds or reads them; `other_*` is any other
-- shape. Binary data is held by reference.
pub mod RoundTrip
pub mod Provenance
pub mod Attachments
pub mod Tests
use open_source_harness.Common.{
  ℕ, suc, ◌≡◌, Bool, true, false, not, Option, none, some, List, [], ◌∷◌, ◌++◌, Str, codes, decimal,
  join, starts_with, map, filter, any, if◌then◌else◌,
}
use open_source_harness.Protocol.Messages.{
  Unknown, undefined, null, string, object, Part, FilePart, ReasoningPart, ToolCallPart,
  ToolResultPart, text, reasoning, tool_call, tool_result, file, Role, system, user, assistant,
  tool, Message,
}

pub data Binary : Type 0 where
  uint8_array array_buffer : ℕ → Binary
  other_data : Binary

pub data UserPart : Type 0 where
  text_part : Str → UserPart
  image_part : Binary → Option Str → UserPart
  file_part : Binary → Str → Option Str → UserPart

pub data AssistantPart : Type 0 where
  text_part reasoning_part : Str → AssistantPart
  tool_call_part : ToolCallPart → AssistantPart
  other_assistant_part : AssistantPart

-- `{ type: 'text', value }`, `{ type: 'json', value }`, any other output with a `value`, and an
-- output without one
pub data ToolOutput : Type 0 where
  text_output : Str → ToolOutput
  json_output other_valued other_output : Unknown → ToolOutput

pub data ToolPart : Type 0 where
  tool_result_part : Str → Str → ToolOutput → ToolPart
  other_tool_part : ToolPart

pub data Content (A : Type 0) : Type 0 where
  plain : Str → Content A
  items : List A → Content A

pub data ModelMessage : Type 0 where
  system_message : Str → ModelMessage
  user_message : Content UserPart → ModelMessage
  assistant_message : Content AssistantPart → ModelMessage
  tool_message : List ToolPart → ModelMessage

-- `${part.filename ?? part.path}`
abbrev pub attachment_name : Option Str → Option Str → Str
attachment_name (some filename) path = filename
attachment_name none (some path) = path
attachment_name none none = codes "undefined"

-- `x ? { x } : {}`: an empty string counts as none
abbrev pub non_empty : Option Str → Option Str
non_empty none = none
non_empty (some []) = none
non_empty (some (c ∷ s)) = some (c ∷ s)

unfoldable pub unavailable : FilePart → UserPart
unavailable part =
    text_part
      (codes "[attachment unavailable: " ++ attachment_name part.filename part.path ++ codes "]")

unfoldable pub attachment : FilePart → ℕ → UserPart
attachment part data_ =
    if starts_with part.media_type (codes "image/")
    then image_part (uint8_array data_) (some part.media_type)
    else file_part (uint8_array data_) part.media_type (non_empty part.filename)

abbrev pub file_content : FilePart → Option ℕ → UserPart
file_content part none = unavailable part
file_content part (some data_) = attachment part data_

unfoldable pub user_content : List Part → List UserPart
unfolding unavailable attachment
user_content [] = []
user_content (text [] ∷ parts) = user_content parts
user_content (text (c ∷ s) ∷ parts) = text_part (c ∷ s) ∷ user_content parts
user_content (file part ∷ parts) = file_content part part.bytes ∷ user_content parts
user_content (reasoning r ∷ parts) = user_content parts
user_content (tool_call c ∷ parts) = user_content parts
user_content (tool_result r ∷ parts) = user_content parts

abbrev pub reasoning_content : Str → List AssistantPart → List AssistantPart
reasoning_content [] rest = rest
reasoning_content (c ∷ s) rest = reasoning_part (c ∷ s) ∷ rest

unfoldable pub assistant_content : List Part → List AssistantPart
assistant_content [] = []
assistant_content (text [] ∷ parts) = assistant_content parts
assistant_content (text (c ∷ s) ∷ parts) = text_part (c ∷ s) ∷ assistant_content parts
assistant_content (reasoning r ∷ parts) = reasoning_content r.text (assistant_content parts)
assistant_content (tool_call c ∷ parts) = tool_call_part c ∷ assistant_content parts
assistant_content (tool_result r ∷ parts) = assistant_content parts
assistant_content (file f ∷ parts) = assistant_content parts

abbrev pub wrap_output : Unknown → ToolOutput
wrap_output (string s) = text_output s
wrap_output undefined = json_output undefined
wrap_output null = json_output null
wrap_output (object n) = json_output (object n)

unfoldable pub tool_content : List Part → List ToolPart
tool_content [] = []
tool_content (tool_result r ∷ parts) =
    tool_result_part r.tool_call_id r.tool_name (wrap_output r.output) ∷ tool_content parts
tool_content (text s ∷ parts) = tool_content parts
tool_content (reasoning r ∷ parts) = tool_content parts
tool_content (tool_call c ∷ parts) = tool_content parts
tool_content (file f ∷ parts) = tool_content parts

-- the message that is pushed for a content, if it is not empty
abbrev pub user_pushed : List UserPart → List ModelMessage
user_pushed [] = []
user_pushed (text_part s ∷ []) = user_message (plain s) ∷ []
user_pushed (image_part b m ∷ []) = user_message (items (image_part b m ∷ [])) ∷ []
user_pushed (file_part b m f ∷ []) = user_message (items (file_part b m f ∷ [])) ∷ []
user_pushed (p ∷ q ∷ ps) = user_message (items (p ∷ q ∷ ps)) ∷ []

abbrev pub assistant_pushed : List AssistantPart → List ModelMessage
assistant_pushed [] = []
assistant_pushed (p ∷ ps) = assistant_message (items (p ∷ ps)) ∷ []

abbrev pub tool_pushed : List ToolPart → List ModelMessage
tool_pushed [] = []
tool_pushed (p ∷ ps) = tool_message (p ∷ ps) ∷ []

-- the body of the loop of `toModelMessages`
abbrev pub pushed : Role → List Part → List ModelMessage
pushed system parts = []
pushed user parts = user_pushed (user_content parts)
pushed assistant parts = assistant_pushed (assistant_content parts)
pushed tool parts = tool_pushed (tool_content parts)

unfoldable pub to_model_messages : List Message → List ModelMessage
unfolding user_content assistant_content tool_content
to_model_messages [] = []
to_model_messages (m ∷ messages) = pushed m.role m.parts ++ to_model_messages messages

abbrev pub to_bytes : Binary → Option ℕ
to_bytes (uint8_array data_) = some data_
to_bytes (array_buffer data_) = some data_
to_bytes other_data = none

abbrev pub or_png : Option Str → Str
or_png none = codes "image/png"
or_png (some media_type) = media_type

unfoldable pub from_user_part : UserPart → Part
from_user_part (text_part s) = text s
from_user_part (image_part data_ media_type) = file (record {
  path = none;
  media_type = or_png media_type;
  filename = none;
  bytes = to_bytes data_;
})
from_user_part (file_part data_ media_type filename) = file (record {
  path = none;
  media_type = media_type;
  filename = non_empty filename;
  bytes = to_bytes data_;
})

unfoldable pub from_assistant_parts : List AssistantPart → List Part
from_assistant_parts [] = []
from_assistant_parts (text_part s ∷ ps) = text s ∷ from_assistant_parts ps
from_assistant_parts (reasoning_part s ∷ ps) =
    reasoning (record { text = s; provider = codes "unknown"; signature = none })
    ∷ from_assistant_parts ps
from_assistant_parts (tool_call_part c ∷ ps) = tool_call c ∷ from_assistant_parts ps
from_assistant_parts (other_assistant_part ∷ ps) = from_assistant_parts ps

abbrev pub unwrap_output : ToolOutput → Unknown
unwrap_output (text_output s) = string s
unwrap_output (json_output value) = value
unwrap_output (other_valued value) = value
unwrap_output (other_output output) = output

unfoldable pub from_tool_parts : List ToolPart → List Part
from_tool_parts [] = []
from_tool_parts (tool_result_part id name output ∷ ps) =
    tool_result (record {
      tool_call_id = id;
      tool_name = name;
      output = unwrap_output output;
      is_error = false;
      elided_to = none;
    })
    ∷ from_tool_parts ps
from_tool_parts (other_tool_part ∷ ps) = from_tool_parts ps

abbrev pub from_content : {A : Type 0} → (List A → List Part) → Content A → List Part
from_content f (plain s) = text s ∷ []
from_content f (items ps) = f ps

abbrev pub from_model_message : Str → ModelMessage → Message
from_model_message id (system_message s) = record {
  id = id;
  role = system;
  parts = text s ∷ [];
  pinned = false;
}
from_model_message id (user_message c) = record {
  id = id;
  role = user;
  parts = from_content (map from_user_part) c;
  pinned = false;
}
from_model_message id (assistant_message c) = record {
  id = id;
  role = assistant;
  parts = from_content from_assistant_parts c;
  pinned = false;
}
from_model_message id (tool_message ps) = record {
  id = id;
  role = tool;
  parts = from_tool_parts ps;
  pinned = false;
}

unfoldable pub from_index : ℕ → List ModelMessage → List Message
unfolding from_user_part from_assistant_parts from_tool_parts
from_index index [] = []
from_index index (m ∷ ms) =
    from_model_message (codes "sdk-" ++ decimal index) m ∷ from_index (suc index) ms

unfoldable pub from_model_messages : List ModelMessage → List Message
unfolding from_index
from_model_messages messages = from_index 0 messages

-- `joinText`
unfoldable pub texts : List Part → List Str
texts [] = []
texts (text s ∷ parts) = s ∷ texts parts
texts (reasoning r ∷ parts) = texts parts
texts (tool_call c ∷ parts) = texts parts
texts (tool_result r ∷ parts) = texts parts
texts (file f ∷ parts) = texts parts

unfoldable pub join_text : Message → Str
unfolding texts
join_text message = join (codes "\n") (texts message.parts)

-- `filter(Boolean)` on texts
abbrev pub is_text : Str → Bool
is_text [] = false
is_text (c ∷ s) = true

unfoldable pub to_instructions : List Message → Str
unfolding join_text
to_instructions pinned = join (codes "\n\n") (filter is_text (map join_text pinned))
