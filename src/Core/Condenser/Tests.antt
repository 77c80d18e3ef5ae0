-- ===== src/Core/Condenser/Tests.antt =====
-- packages/core/src/condenser.ts: runs on small conversations, and instances of the theorems.
use open_source_harness.Common.{
  ℕ, ◌≡◌, ◌≤◌, ◌<◌, ◌⊎◌, true, false, Option, none, some, List, [], ◌∷◌, ◌++◌, Str, codes, decimal,
  join, arith, refl, filter, drop, get_elem?,
}
use open_source_harness.Protocol.Messages.{
  Unknown, string, Message, Role, text, tool_call, tool_result, user, assistant, tool, system,
}
use open_source_harness.Core.Tokens.{Runtime, no_text, estimate_tokens}
use open_source_harness.Core.Condenser.{
  holds_at, has_tool_result, CondenserOptions, CondenseResult, is_pinned, is_unpinned, condense,
  recent_boundary, elide_tool_outputs, summarise_middle, size_of_messages, elision_note,
  summary_message,
}
use open_source_harness.Core.Condenser.Boundary.{Exchange, recent_boundary-keeps_exchange}
use open_source_harness.Core.Condenser.Laws.{condense_keeps_pinned, condense_keeps_tail}

abbrev pub plain : Runtime
plain = record { stringify = λ value. no_text; to_string = λ value. [] }

abbrev say : Str → Role → Str → Message
say id role words = record { id = id; role = role; parts = text words ∷ []; pinned = false }

abbrev policy : Message
policy = record { id = codes "p"; role = system; parts = text (codes "rule") ∷ []; pinned = true }

abbrev asks : Message
asks = record {
  id = codes "c";
  role = assistant;
  parts =
      tool_call (record { tool_call_id = codes "1"; tool_name = codes "read"; input = string [] })
      ∷ [];
  pinned = false;
}

abbrev answers : Message
answers = record {
  id = codes "r";
  role = tool;
  parts =
      tool_result (record {
        tool_call_id = codes "1";
        tool_name = codes "read";
        output = string (codes "0123456789");
        is_error = false;
        elided_to = none;
      })
      ∷ [];
  pinned = false;
}

abbrev chat : List Message
chat =
    say (codes "u") user (codes "hello")
    ∷ asks
    ∷ answers
    ∷ policy
    ∷ say (codes "a") assistant (codes "done")
    ∷ say (codes "v") user (codes "more")
    ∷ []

abbrev store : Str → Unknown → Option Str
store call output = some (codes "/f")

abbrev sum_up : List Message → Option Str
sum_up middle = some (codes "short")

abbrev small : CondenserOptions
small = record {
  max_tokens = 10;
  keep_recent = 1;
  keep_first = 1;
  elide_tool_outputs_over_chars = 4;
  persist_tool_output = some store;
  summarise = some sum_up;
}

-- The unpinned messages, and what a compaction of the chat leaves.
abbrev history : List Message
history = filter is_unpinned chat

abbrev condensed : List Message
condensed =
    policy
    ∷ say (codes "u") user (codes "hello")
    ∷ summary_message 4 3 (codes "short")
    ∷ say (codes "v") user (codes "more")
    ∷ []

abbrev compacted_chat : CondenseResult
compacted_chat = record {
  messages = condensed;
  compacted = true;
  strategy = codes "elide-tool-outputs+summarise-middle";
  before = record { messages = 6; tokens = estimate_tokens plain chat };
  after = record { messages = 4; tokens = estimate_tokens plain condensed };
}

condense-chat : condense plain small chat ≡ some compacted_chat
unfolding condense estimate_tokens elision_note decimal join
condense-chat = refl

-- Within a large budget the conversation is returned as it is.
abbrev roomy : CondenserOptions
roomy = record small { max_tokens = 1000 }

condense_within :
    condense plain roomy chat
    ≡ some (record {
      messages = chat;
      compacted = false;
      strategy = codes "none";
      before = size_of_messages plain roomy chat;
      after = size_of_messages plain roomy chat;
    })
unfolding condense estimate_tokens
condense_within = refl

-- The tail of two messages would begin with the result, so the boundary moves to the call.
boundary_moves : recent_boundary (asks ∷ answers ∷ policy ∷ []) 2 ≡ 0
unfolding recent_boundary
boundary_moves = refl

abbrev exchange : Exchange history 1 2
exchange = record { ordered = omega arith; call = refl; results = λ k h i. at_two k (omega arith) }
  where
    at_two : (k : ℕ) → k ≡ 2 → holds_at has_tool_result (get_elem? history k) ≡ true
    at_two k e = rw e

recent_boundary-keeps_exchange_example :
    (recent_boundary history 2 ≤ 1) ⊎ (2 < recent_boundary history 2)
recent_boundary-keeps_exchange_example = recent_boundary-keeps_exchange history 2 1 2 exchange

-- The result of the call is stored, and its message keeps the id and the role.
abbrev elided_answers : Message
elided_answers = record answers {
  parts =
      tool_result (record {
        tool_call_id = codes "1";
        tool_name = codes "read";
        output = string (elision_note 10 (codes "/f"));
        is_error = false;
        elided_to = some (codes "/f");
      })
      ∷ [];
}

abbrev elided_history : List Message
elided_history =
    say (codes "u") user (codes "hello")
    ∷ asks
    ∷ elided_answers
    ∷ say (codes "a") assistant (codes "done")
    ∷ say (codes "v") user (codes "more")
    ∷ []

elide_history : elide_tool_outputs plain store 4 history 1 ≡ some (elided_history, true)
unfolding elide_tool_outputs
elide_history = refl

abbrev shrunk_history : List Message
shrunk_history =
    say (codes "u") user (codes "hello")
    ∷ summary_message 4 3 (codes "short")
    ∷ say (codes "v") user (codes "more")
    ∷ []

summarise_history : summarise_middle sum_up 1 1 history ≡ some (shrunk_history, true)
unfolding summarise_middle
summarise_history = refl

condense_keeps_pinned_example : filter is_pinned compacted_chat.messages ≡ filter is_pinned chat
condense_keeps_pinned_example = condense_keeps_pinned plain small chat compacted_chat condense-chat

condense_keeps_tail_example :
    (front : List Message) × (filter is_unpinned compacted_chat.messages
      ≡ front ++ drop (recent_boundary history 1) history)
condense_keeps_tail_example = condense_keeps_tail plain small chat compacted_chat condense-chat

abbrev untouched_chat : CondenseResult
untouched_chat = record {
  messages = chat;
  compacted = false;
  strategy = codes "none";
  before = size_of_messages plain roomy chat;
  after = size_of_messages plain roomy chat;
}
