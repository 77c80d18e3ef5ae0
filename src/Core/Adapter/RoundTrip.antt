-- ===== src/Core/Adapter/RoundTrip.antt =====
-- packages/core/src/adapter.ts: a step reads back what the SDK is about to send and sends it again.
use open_source_harness.Common.{
  ℕ, suc, ◌≡◌, refl, ap, ◌∙◌, Option, none, some, List, [], ◌∷◌, ◌++◌, Str, codes, map, starts_with,
  inl, inr, Bool-cases,
}
use open_source_harness.Protocol.Messages.{
  Unknown, undefined, null, string, object, Part, FilePart, text, reasoning, tool_call, tool_result,
  file, system, Role, user, assistant, tool, Message,
}
use open_source_harness.Core.Adapter.{
  uint8_array, UserPart, ModelMessage, AssistantPart, ToolPart, text_part, image_part, file_part,
  reasoning_part, tool_call_part, tool_result_part, user_content, assistant_content, tool_content,
  user_pushed, assistant_pushed, tool_pushed, pushed, to_model_messages, from_user_part,
  from_assistant_parts, from_tool_parts, from_index, from_model_messages, file_content, unavailable,
  attachment, non_empty, reasoning_content, wrap_output, unwrap_output,
}

non_empty_twice : (s : Option Str) → non_empty (non_empty s) ≡ non_empty s
non_empty_twice none = refl
non_empty_twice (some []) = refl
non_empty_twice (some (c ∷ s)) = refl

attachment_again :
    (part : FilePart) (data_ : ℕ) (ps : List Part)
    → user_content (from_user_part (attachment part data_) ∷ ps)
      ≡ attachment part data_ ∷ user_content ps
unfolding user_content from_user_part attachment
attachment_again part data_ ps = elim (Bool-cases (starts_with part.media_type (codes "image/"))) [
  | inl image ↦ rw (image, from_user_part, image) refl
  | inr other ↦
      rw (other, from_user_part, other)
        (ap (λ f. file_part (uint8_array data_) part.media_type f ∷ user_content ps)
          (non_empty_twice (non_empty part.filename) ∙ non_empty_twice part.filename))
]

file_again :
    (part : FilePart) (bytes : Option ℕ) (ps : List Part)
    → user_content (from_user_part (file_content part bytes) ∷ ps)
      ≡ file_content part bytes ∷ user_content ps
unfolding user_content from_user_part unavailable
file_again part none ps = refl
file_again part (some data_) ps = attachment_again part data_ ps

user_content_again :
    (ps : List Part) → user_content (map from_user_part (user_content ps)) ≡ user_content ps
unfolding user_content from_user_part
user_content_again [] = refl
user_content_again (text [] ∷ ps) = user_content_again ps
user_content_again (text (c ∷ s) ∷ ps) =
    ap (◌∷◌ (UserPart.text_part (c ∷ s))) (user_content_again ps)
user_content_again (file part ∷ ps) =
    file_again part part.bytes (map from_user_part (user_content ps))
    ∙ ap (◌∷◌ (file_content part part.bytes)) (user_content_again ps)
user_content_again (reasoning r ∷ ps) = user_content_again ps
user_content_again (tool_call c ∷ ps) = user_content_again ps
user_content_again (tool_result r ∷ ps) = user_content_again ps

reasoning_again :
    (s : Str) (ps : List AssistantPart)
    → assistant_content (from_assistant_parts ps) ≡ ps
    → assistant_content (from_assistant_parts (reasoning_content s ps)) ≡ reasoning_content s ps
unfolding assistant_content from_assistant_parts
reasoning_again [] ps e = e
reasoning_again (c ∷ s) ps e = ap (◌∷◌ (reasoning_part (c ∷ s))) e

assistant_content_again :
    (ps : List Part)
    → assistant_content (from_assistant_parts (assistant_content ps)) ≡ assistant_content ps
unfolding assistant_content from_assistant_parts
assistant_content_again [] = refl
assistant_content_again (text [] ∷ ps) = assistant_content_again ps
assistant_content_again (text (c ∷ s) ∷ ps) =
    ap (◌∷◌ (AssistantPart.text_part (c ∷ s))) (assistant_content_again ps)
assistant_content_again (reasoning r ∷ ps) =
    reasoning_again r.text (assistant_content ps) (assistant_content_again ps)
assistant_content_again (tool_call c ∷ ps) =
    ap (◌∷◌ (tool_call_part c)) (assistant_content_again ps)
assistant_content_again (tool_result r ∷ ps) = assistant_content_again ps
assistant_content_again (file f ∷ ps) = assistant_content_again ps

wrap_again : (u : Unknown) → wrap_output (unwrap_output (wrap_output u)) ≡ wrap_output u
wrap_again undefined = refl
wrap_again null = refl
wrap_again (string s) = refl
wrap_again (object n) = refl

tool_content_again :
    (ps : List Part) → tool_content (from_tool_parts (tool_content ps)) ≡ tool_content ps
unfolding tool_content from_tool_parts
tool_content_again [] = refl
tool_content_again (tool_result r ∷ ps) =
    ap
      (λ o.
        tool_result_part r.tool_call_id r.tool_name o
        ∷ tool_content (from_tool_parts (tool_content ps)))
      (wrap_again r.output)
    ∙ ap (◌∷◌ (tool_result_part r.tool_call_id r.tool_name (wrap_output r.output)))
        (tool_content_again ps)
tool_content_again (text s ∷ ps) = tool_content_again ps
tool_content_again (reasoning r ∷ ps) = tool_content_again ps
tool_content_again (tool_call c ∷ ps) = tool_content_again ps
tool_content_again (file f ∷ ps) = tool_content_again ps

-- What follows is sent again as it is, whatever ids it is given.
abbrev Stable : List ModelMessage → Type 0
Stable rest = (i : ℕ) → to_model_messages (from_index i rest) ≡ rest

user_step :
    (ps : List UserPart) (rest : List ModelMessage)
    → user_content (map from_user_part ps) ≡ ps
    → Stable rest
    → Stable (user_pushed ps ++ rest)
unfolding to_model_messages from_index from_user_part
user_step [] rest e h i = h i
user_step (text_part s ∷ []) rest e h i =
    ap (λ c. user_pushed c ++ to_model_messages (from_index (suc i) rest)) e
    ∙ ap (◌++◌ (user_pushed (text_part s ∷ []))) (h (suc i))
user_step (image_part b m ∷ []) rest e h i =
    ap (λ c. user_pushed c ++ to_model_messages (from_index (suc i) rest)) e
    ∙ ap (◌++◌ (user_pushed (image_part b m ∷ []))) (h (suc i))
user_step (file_part b m f ∷ []) rest e h i =
    ap (λ c. user_pushed c ++ to_model_messages (from_index (suc i) rest)) e
    ∙ ap (◌++◌ (user_pushed (file_part b m f ∷ []))) (h (suc i))
user_step (p ∷ q ∷ ps) rest e h i =
    ap (λ c. user_pushed c ++ to_model_messages (from_index (suc i) rest)) e
    ∙ ap (◌++◌ (user_pushed (p ∷ q ∷ ps))) (h (suc i))

assistant_step :
    (ps : List AssistantPart) (rest : List ModelMessage)
    → assistant_content (from_assistant_parts ps) ≡ ps
    → Stable rest
    → Stable (assistant_pushed ps ++ rest)
unfolding to_model_messages from_index
assistant_step [] rest e h i = h i
assistant_step (p ∷ ps) rest e h i =
    ap (λ c. assistant_pushed c ++ to_model_messages (from_index (suc i) rest)) e
    ∙ ap (◌++◌ (assistant_pushed (p ∷ ps))) (h (suc i))

tool_step :
    (ps : List ToolPart) (rest : List ModelMessage)
    → tool_content (from_tool_parts ps) ≡ ps
    → Stable rest
    → Stable (tool_pushed ps ++ rest)
unfolding to_model_messages from_index
tool_step [] rest e h i = h i
tool_step (p ∷ ps) rest e h i =
    ap (λ c. tool_pushed c ++ to_model_messages (from_index (suc i) rest)) e
    ∙ ap (◌++◌ (tool_pushed (p ∷ ps))) (h (suc i))

pushed-Stable :
    (role : Role) (parts : List Part) (rest : List ModelMessage)
    → Stable rest
    → Stable (pushed role parts ++ rest)
pushed-Stable system parts rest h = h
pushed-Stable user parts rest h = user_step _ _ (user_content_again parts) h
pushed-Stable assistant parts rest h = assistant_step _ _ (assistant_content_again parts) h
pushed-Stable tool parts rest h = tool_step _ _ (tool_content_again parts) h

to_model_messages-Stable : (messages : List Message) → Stable (to_model_messages messages)
unfolding to_model_messages
to_model_messages-Stable [] = λ i. unfold from_index in refl
to_model_messages-Stable (m ∷ messages) =
    pushed-Stable m.role m.parts _ (to_model_messages-Stable messages)

-- Reading back what was built for the SDK and building it again gives the same request: every text,
-- attachment, reasoning text, tool call and tool result of it, in the same order.
pub to_model_messages-from_model_messages :
    (messages : List Message)
    → to_model_messages (from_model_messages (to_model_messages messages))
      ≡ to_model_messages messages
unfolding from_model_messages
to_model_messages-from_model_messages messages = to_model_messages-Stable messages 0
