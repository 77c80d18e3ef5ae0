-- ===== src/Core/Condenser.antt =====
-- packages/core/src/condenser.ts: compaction of the conversation before a request.
-- `persistToolOutput` and `summarise` are supplied by the session: they are arguments here, and a
-- call of theirs that rejects is `none`. A rejection leaves `condense` as a rejection. The calls
-- of one `Promise.all` do not depend on one another, so their order is not modelled.
pub mod Boundary
pub mod Elide
pub mod Summary
pub mod Quiet
pub mod Passes
pub mod Laws
pub mod Tests
use open_source_harness.Common.{
  ℕ, suc, zero, ◌≡◌, ◌+◌, ◌-◌, Bool, true, false, not, ◌&&◌, ◌||◌, Option, none, some, List, [],
  ◌∷◌, ◌++◌, Str, codes, length, leb, ltb, if◌then◌else◌, filter, any, take, drop, get_elem?,
  decimal, join,
}
use open_source_harness.Common.Monad.{◌>>=◌}
use open_source_harness.Protocol.Messages.{
  Unknown, undefined, null, string, object, Part, ToolResultPart, text, reasoning, tool_call,
  tool_result, file, Message, assistant, is_tool_call, is_tool_result,
}
use open_source_harness.Core.Tokens.{Runtime, stringified_length, estimate_tokens}

pub record CondenserOptions : Type 0 where
  pub max_tokens : ℕ
  pub keep_recent : ℕ
  pub keep_first : ℕ
  pub elide_tool_outputs_over_chars : ℕ
  pub persist_tool_output : Option (Str → Unknown → Option Str)
  pub summarise : Option (List Message → Option Str)

pub record Size : Type 0 where
  pub messages : ℕ
  pub tokens : ℕ

pub record CondenseResult : Type 0 where
  pub messages : List Message
  pub compacted : Bool
  pub strategy : Str
  pub before : Size
  pub after : Size

abbrev pub has_tool_call : Message → Bool
has_tool_call message = any is_tool_call message.parts

abbrev pub has_tool_result : Message → Bool
has_tool_result message = any is_tool_result message.parts

-- `x && f(x)` on an element that may be out of range
abbrev pub holds_at : (Message → Bool) → Option Message → Bool
holds_at p none = false
holds_at p (some m) = p m

-- the `while` loop of `recentBoundary`; it falls at each round, so it is a recursion on `boundary`
unfoldable pub boundary_from : List Message → ℕ → ℕ
boundary_from history zero = zero
boundary_from history (suc before) =
    if holds_at has_tool_result (get_elem? history (suc before))
      || holds_at has_tool_call (get_elem? history before)
    then boundary_from history before
    else suc before

-- `Math.max(0, n)` is the subtraction on ℕ
unfoldable pub recent_boundary : List Message → ℕ → ℕ
unfolding boundary_from
recent_boundary history keep_recent = boundary_from history (length history - keep_recent)

-- `if (result.elidedTo)`: an empty path counts as none
abbrev pub truthy : Option Str → Bool
truthy none = false
truthy (some []) = false
truthy (some (c ∷ s)) = true

unfoldable pub elision_note : ℕ → Str → Str
elision_note size path =
    codes "["
    ++ decimal size
    ++ codes " characters elided to "
    ++ path
    ++ codes " — read that file to see the full output]"

module _ (runtime : Runtime) where
  unfoldable pub size_of : Unknown → ℕ
  size_of (string s) = length s
  size_of undefined = 0
  size_of null = 4
  size_of (object value) = stringified_length runtime value (runtime.stringify value)

  module _ (persist : Str → Unknown → Option Str) (limit : ℕ) where
    -- one round of the inner `map`, with whether it changed the part
    unfoldable pub elide_result : ToolResultPart → Option (Part × Bool)
    unfolding size_of
    elide_result r =
        if truthy r.elided_to || leb (size_of r.output) limit
        then some (tool_result r, false)
        else do
          path ← persist r.tool_call_id r.output
          some (
            tool_result (record r {
              output = string (elision_note (size_of r.output) path);
              elided_to = some path;
            }),
            true,
          )

    unfoldable pub elide_part : Part → Option (Part × Bool)
    unfolding elide_result
    elide_part (tool_result r) = elide_result r
    elide_part (text s) = some (text s, false)
    elide_part (reasoning r) = some (reasoning r, false)
    elide_part (tool_call c) = some (tool_call c, false)
    elide_part (file f) = some (file f, false)

    unfoldable pub elide_parts : List Part → Option (List Part × Bool)
    unfolding elide_part
    elide_parts [] = some ([], false)
    elide_parts (part ∷ parts) = do
      first ← elide_part part
      rest ← elide_parts parts
      some (first.0 ∷ rest.0, first.1 || rest.1)

    unfoldable pub elide_message : Message → Option (Message × Bool)
    unfolding elide_parts
    elide_message message = do
      result ← elide_parts message.parts
      some (if result.1 then record message { parts = result.0 } else message, result.1)

    -- The outer `map`: the first `boundary` messages are treated, the others returned as they are.
    unfoldable pub elide_before : ℕ → List Message → Option (List Message × Bool)
    unfolding elide_message
    elide_before zero history = some (history, false)
    elide_before (suc boundary) [] = some ([], false)
    elide_before (suc boundary) (message ∷ rest) = do
      first ← elide_message message
      others ← elide_before boundary rest
      some (first.0 ∷ others.0, first.1 || others.1)

    unfoldable pub elide_tool_outputs : List Message → ℕ → Option (List Message × Bool)
    unfolding elide_before recent_boundary
    elide_tool_outputs history keep_recent =
        elide_before (recent_boundary history keep_recent) history

unfoldable pub summary_message : ℕ → ℕ → Str → Message
summary_message boundary count summary = record {
  id = codes "summary-" ++ decimal boundary ++ codes "-" ++ decimal count;
  role = assistant;
  pinned = false;
  parts =
      text (
        codes "[Earlier conversation summarised — "
        ++ decimal count
        ++ codes " messages]"
        ++ 10 ∷ 10 ∷ summary)
      ∷ [];
}

unfoldable pub summarise_middle :
    (List Message → Option Str) → ℕ → ℕ → List Message → Option (List Message × Bool)
unfolding recent_boundary
summarise_middle summarise keep_first keep_recent history =
    let boundary = recent_boundary history keep_recent in
    let middle = drop keep_first (take boundary history) in
    if ltb (length middle) 2 then some (history, false) else do
      summary ← summarise middle
      some (
        take keep_first history
            ++ summary_message boundary (length middle) summary ∷ drop boundary history,
        true,
      )

abbrev pub is_pinned : Message → Bool
is_pinned m = m.pinned

abbrev pub is_unpinned : Message → Bool
is_unpinned m = not m.pinned

-- `passes.length > 0 ? passes.join('+') : 'none'`, and `passes.length > 0`
abbrev pub strategy_name : List Str → Str
strategy_name [] = codes "none"
strategy_name (p ∷ ps) = join (codes "+") (p ∷ ps)

abbrev pub ran : List Str → Bool
ran [] = false
ran (p ∷ ps) = true

module _ (runtime : Runtime) (options : CondenserOptions) where
  open options use {max_tokens, keep_recent, keep_first, elide_tool_outputs_over_chars}

  -- `if (options.persistToolOutput) { … }`: the new history and the names of the passes that ran
  unfoldable pub elide_pass :
      Option (Str → Unknown → Option Str) → List Message → Option (List Message × List Str)
  unfolding elide_tool_outputs
  elide_pass none history = some (history, [])
  elide_pass (some persist) history = do
    elided ← elide_tool_outputs runtime persist elide_tool_outputs_over_chars history keep_recent
    some (elided.0, if elided.1 then codes "elide-tool-outputs" ∷ [] else [])

  -- `if (estimateTokens(current) > options.maxTokens && options.summarise) { … }`
  unfoldable pub summarise_pass :
      Option (List Message → Option Str)
      → List Message
      → List Message
      → List Str
      → Option (List Message × List Str)
  unfolding summarise_middle
  summarise_pass none pinned history passes = some (history, passes)
  summarise_pass (some summarise) pinned history passes =
      if ltb max_tokens (estimate_tokens runtime (pinned ++ history))
      then (do
        summarised ← summarise_middle summarise keep_first keep_recent history
        some (
          summarised.0,
          if summarised.1 then passes ++ codes "summarise-middle" ∷ [] else passes,
        ))
      else some (history, passes)

  abbrev pub size_of_messages : List Message → Size
  size_of_messages ms = record { messages = length ms; tokens = estimate_tokens runtime ms }

  unfoldable pub condense : List Message → Option CondenseResult
  unfolding elide_pass summarise_pass
  condense input =
      let pinned = filter is_pinned input in
      if leb (estimate_tokens runtime input) max_tokens
      then some (record {
        messages = input;
        compacted = false;
        strategy = codes "none";
        before = size_of_messages input;
        after = size_of_messages input;
      })
      else do
        elided ← elide_pass options.persist_tool_output (filter is_unpinned input)
        shrunk ← summarise_pass options.summarise pinned elided.0 elided.1
        some (record {
          messages = pinned ++ shrunk.0;
          compacted = ran shrunk.1;
          strategy = strategy_name shrunk.1;
          before = size_of_messages input;
          after = size_of_messages (pinned ++ shrunk.0);
        })
