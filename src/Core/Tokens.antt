-- ===== src/Core/Tokens.antt =====
-- packages/core/src/tokens.ts: the local estimate that decides when to compact.
use open_source_harness.Common.{
  ℕ, ◌+◌, ◌/◌, ◌≡◌, refl, List, [], ◌∷◌, ◌++◌, Option, none, some, Str, codes, length, starts_with,
  if◌then◌else◌, arith,
}
use open_source_harness.Protocol.Messages.{
  Unknown, undefined, null, string, object, Part, text, reasoning, tool_call, tool_result, file,
  Message,
}

-- What `JSON.stringify` does with a value that is held by reference.
pub data Stringified : Type 0 where
  threw : Stringified
  no_text : Stringified
  serialised : Str → Stringified

-- The language's own conversions of such a value: `JSON.stringify(value)` and `String(value)`. Only
-- values on which `String` returns are modelled: on an object without a prototype it throws, and so
-- would the estimate where `JSON.stringify` throws too.
pub record Runtime : Type 0 where
  pub stringify : ℕ → Stringified
  pub to_string : ℕ → Str

abbrev pub chars_per_token : ℕ
chars_per_token = 4

abbrev pub message_overhead_tokens : ℕ
message_overhead_tokens = 4

-- `Math.ceil(chars / CHARS_PER_TOKEN)`
unfoldable pub chars_to_tokens : ℕ → ℕ
chars_to_tokens chars = (chars + 3) / chars_per_token

unfoldable pub estimate_attachment_tokens : Str → ℕ
estimate_attachment_tokens media_type =
    if starts_with media_type (codes "image/") then 3000 else 10000

abbrev pub signature_length : Option Str → ℕ
signature_length none = 0
signature_length (some s) = length s

module _ (runtime : Runtime) where
  abbrev pub stringified_length : ℕ → Stringified → ℕ
  stringified_length value threw = length (runtime.to_string value)
  stringified_length value no_text = 0
  stringified_length value (serialised s) = length s

  unfoldable pub json_length : Unknown → ℕ
  json_length undefined = 0
  json_length null = 0
  json_length (string s) = length s
  json_length (object value) = stringified_length value (runtime.stringify value)

  unfoldable pub estimate_part_tokens : Part → ℕ
  unfolding json_length chars_to_tokens estimate_attachment_tokens
  estimate_part_tokens (text s) = chars_to_tokens (length s)
  estimate_part_tokens (reasoning r) =
      chars_to_tokens (length r.text + signature_length r.signature)
  estimate_part_tokens (tool_call c) = chars_to_tokens (length c.tool_name + json_length c.input)
  estimate_part_tokens (tool_result r) = chars_to_tokens (length r.tool_name + json_length r.output)
  estimate_part_tokens (file f) = estimate_attachment_tokens f.media_type

  -- the inner loop of `estimateTokens`, and the `reduce` of `estimateMessageTokens`
  unfoldable pub estimate_parts : ℕ → List Part → ℕ
  unfolding estimate_part_tokens
  estimate_parts total [] = total
  estimate_parts total (part ∷ parts) = estimate_parts (total + estimate_part_tokens part) parts

  unfoldable pub estimate_message_tokens : Message → ℕ
  unfolding estimate_parts
  estimate_message_tokens message = message_overhead_tokens + estimate_parts 0 message.parts

  estimate_from : ℕ → List Message → ℕ
  unfolding estimate_parts
  estimate_from total [] = total
  estimate_from total (m ∷ ms) =
      estimate_from (estimate_parts (total + message_overhead_tokens) m.parts) ms

  unfoldable pub estimate_tokens : List Message → ℕ
  unfolding estimate_from
  estimate_tokens messages = estimate_from 0 messages

  estimate_parts_acc :
      (total more : ℕ) (parts : List Part)
      → estimate_parts (total + more) parts ≡ total + estimate_parts more parts
  unfolding estimate_parts
  estimate_parts_acc total more [] = refl
  estimate_parts_acc total more (part ∷ parts) =
      let step : total + more + estimate_part_tokens part
          ≡ total + (more + estimate_part_tokens part) =
        omega arith in
      rw step (estimate_parts_acc total (more + estimate_part_tokens part) parts)

  -- The sum over the messages, as `estimateMessageTokens` counts each.
  abbrev pub sum_messages : List Message → ℕ
  sum_messages [] = 0
  sum_messages (m ∷ ms) = estimate_message_tokens m + sum_messages ms

  estimate_from-eq-sum :
      (total : ℕ) (ms : List Message) → estimate_from total ms ≡ total + sum_messages ms
  unfolding estimate_from estimate_message_tokens
  estimate_from-eq-sum total [] = omega arith
  estimate_from-eq-sum total (m ∷ ms) = omega (
    arith,
    estimate_from-eq-sum (estimate_parts (total + message_overhead_tokens) m.parts) ms,
    estimate_parts_acc total message_overhead_tokens m.parts,
    estimate_parts_acc message_overhead_tokens 0 m.parts,
  )

  -- The two estimators agree: the estimate of a conversation is the sum over its messages of
  -- `estimateMessageTokens`.
  pub estimate_tokens-eq-sum : (ms : List Message) → estimate_tokens ms ≡ sum_messages ms
  unfolding estimate_tokens
  estimate_tokens-eq-sum ms = omega (arith, estimate_from-eq-sum 0 ms)

  sum_messages-append :
      (xs ys : List Message) → sum_messages (xs ++ ys) ≡ sum_messages xs + sum_messages ys
  sum_messages-append [] ys = omega arith
  sum_messages-append (x ∷ xs) ys = omega (arith, sum_messages-append xs ys)

  pub estimate_tokens-append :
      (xs ys : List Message) → estimate_tokens (xs ++ ys) ≡ estimate_tokens xs + estimate_tokens ys
  estimate_tokens-append xs ys = omega (
    arith,
    estimate_tokens-eq-sum (xs ++ ys),
    estimate_tokens-eq-sum xs,
    estimate_tokens-eq-sum ys,
    sum_messages-append xs ys,
  )
