-- ===== src/Core/Adapter/Tests.antt =====
-- packages/core/src/adapter.ts: a turn with an image, a tool call and its result, and instances of
-- the theorems.
use open_source_harness.Common.{
  ◌≡◌, refl, true, false, none, some, ℕ, Option, List, [], ◌∷◌, Str, codes, starts_with,
}
use open_source_harness.Protocol.Messages.{
  object, string, text, reasoning, tool_call, tool_result, file, system, user, assistant, tool,
  Message,
}
use open_source_harness.Gateway.Artifacts.{}
use open_source_harness.Core.Adapter.{
  uint8_array, ModelMessage, items, user_message, assistant_message, tool_message, image_part,
  text_part, reasoning_part, tool_call_part, tool_result_part, text_output, user_content,
  assistant_content, tool_content, attachment, to_model_messages, from_model_messages,
}
use open_source_harness.Core.Adapter.RoundTrip.{to_model_messages-from_model_messages}
use open_source_harness.Core.Adapter.Attachments.{}

abbrev turn : List Message
turn =
    record { id = codes "p"; role = system; parts = text (codes "policy") ∷ []; pinned = true }
    ∷ record {
      id = codes "u";
      role = user;
      parts =
          text (codes "Look.")
          ∷ file (record {
            path = some (codes "/a.png");
            media_type = codes "image/png";
            filename = some (codes "a.png");
            bytes = some 7;
          })
          ∷ [];
      pinned = false;
    }
    ∷ record {
      id = codes "a";
      role = assistant;
      parts =
          reasoning (record {
            text = codes "hm";
            provider = codes "google";
            signature = some (codes "sig");
          })
          ∷ tool_call
              (record { tool_call_id = codes "c1"; tool_name = codes "read"; input = object 1 })
          ∷ [];
      pinned = false;
    }
    ∷ record {
      id = codes "t";
      role = tool;
      parts =
          tool_result (record {
            tool_call_id = codes "c1";
            tool_name = codes "read";
            output = string (codes "ok");
            is_error = false;
            elided_to = none;
          })
          ∷ [];
      pinned = false;
    }
    ∷ []

abbrev sent : List ModelMessage
sent =
    user_message (
      items
        (text_part (codes "Look.") ∷ image_part (uint8_array 7) (some (codes "image/png")) ∷ []))
    ∷ assistant_message (
        items (
          reasoning_part (codes "hm")
          ∷ tool_call_part
              (record { tool_call_id = codes "c1"; tool_name = codes "read"; input = object 1 })
          ∷ []))
    ∷ tool_message (tool_result_part (codes "c1") (codes "read") (text_output (codes "ok")) ∷ [])
    ∷ []

built_for_sdk : to_model_messages turn ≡ sent
unfolding to_model_messages user_content assistant_content tool_content attachment starts_with
built_for_sdk = refl

to_model_messages-from_model_messages_example :
    to_model_messages (from_model_messages (to_model_messages turn)) ≡ to_model_messages turn
to_model_messages-from_model_messages_example = to_model_messages-from_model_messages turn

abbrev read : Str → Option ℕ
read path = some 9
