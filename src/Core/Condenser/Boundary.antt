-- ===== src/Core/Condenser/Boundary.antt =====
-- packages/core/src/condenser.ts, recentBoundary: where the verbatim tail begins.
use open_source_harness.Common.{
  ℕ, suc, zero, ◌≡◌, ◌-◌, ◌≤◌, ◌<◌, ◌⊎◌, inl, inr, true, ◌||◌, List, length, get_elem?, Bool-cases,
  arith, refl,
}
use native.Mathlib.Decide.{ℕ_discrete, dec_lt}
use open_source_harness.Protocol.Messages.{Message}
use open_source_harness.Core.Condenser.{
  has_tool_call, has_tool_result, holds_at, boundary_from, recent_boundary,
}

abbrev pub ResultAt : List Message → ℕ → Type 0
ResultAt history i = holds_at has_tool_result (get_elem? history i) ≡ true

abbrev pub CallAt : List Message → ℕ → Type 0
CallAt history i = holds_at has_tool_call (get_elem? history i) ≡ true

-- A tail that begins at `suc b` would begin with a result, or follow a call.
abbrev pub Splits : List Message → ℕ → Type 0
Splits history b = ResultAt history (suc b) ⊎ CallAt history b

abbrev pub Clean : List Message → ℕ → Type 0
Clean history zero = Unit
Clean history (suc b) = ¬ Splits history b

-- The latest start of a tail, no later than `limit`, that separates nothing.
pub record IsBoundary (history : List Message) (limit b : ℕ) : Type 0 where
  pub within : b ≤ limit
  pub clean : Clean history b
  pub latest : (i : ℕ) → b ≤ i → suc i ≤ limit → Splits history i

Splits-test :
    (history : List Message) (b : ℕ)
    → (holds_at has_tool_result (get_elem? history (suc b))
        || holds_at has_tool_call (get_elem? history b))
      ≡ true
    → Splits history b
Splits-test history b e = ground arith

-- What holds from `a` up to `b` and at `b` holds up to `suc b`.
up_to_last :
    (P : ℕ → Type 0) (a b : ℕ)
    → ((j : ℕ) → a ≤ j → suc j ≤ b → P j)
    → P b
    → (i : ℕ) → a ≤ i
    → suc i ≤ suc b
    → P i
up_to_last P a b before last i h k = elim (ℕ_discrete i b) [
  | yes e ↦ rw e last
  | no e ↦ before i h (omega arith)
]

boundary_from-IsBoundary :
    (history : List Message) (limit : ℕ) → IsBoundary history limit (boundary_from history limit)
unfolding boundary_from
boundary_from-IsBoundary history zero = record {
  within = omega arith;
  clean = tt;
  latest = λ i h k. absurd (omega arith);
}
boundary_from-IsBoundary history (suc b) =
    elim (Bool-cases (
      holds_at has_tool_result (get_elem? history (suc b))
      || holds_at has_tool_call (get_elem? history b))) [
        | inl joined ↦
            let ih = boundary_from-IsBoundary history b in
            rw joined (record {
              within = omega arith;
              clean = ih.clean;
              latest = up_to_last (Splits history) _ b ih.latest (Splits-test history b joined);
            })
        | inr apart ↦ rw apart (record {
          within = omega arith;
          clean = λ s. ground arith;
          latest = λ i h k. absurd (omega arith);
        })
      ]

-- The tail begins no later than `keep_recent` messages from the end. It begins with no tool result
-- and follows no message with tool calls, unless it is the whole history; and every later start
-- within the limit would begin with a tool result or follow a message with tool calls.
pub recent_boundary-IsBoundary :
    (history : List Message) (keep_recent : ℕ)
    → IsBoundary history (length history - keep_recent) (recent_boundary history keep_recent)
unfolding recent_boundary
recent_boundary-IsBoundary history keep_recent =
    boundary_from-IsBoundary history (length history - keep_recent)

-- The message at `i` made tool calls, and the messages after it up to `j` carry their results.
pub record Exchange (history : List Message) (i j : ℕ) : Type 0 where
  pub ordered : i < j
  pub call : CallAt history i
  pub results : (k : ℕ) → i < k → k ≤ j → ResultAt history k

Clean-of_exchange :
    (history : List Message) (i j b : ℕ)
    → Exchange history i j
    → Clean history b
    → i < b
    → b ≤ j
    → ⊥
Clean-of_exchange history i j zero e c h k = absurd (omega arith)
Clean-of_exchange history i j (suc b) e c h k = c (inl (e.results (suc b) h k))

-- A message with tool calls and the messages after it that carry the results stand on one side of
-- the boundary, all of them in the compactable part or all of them in the verbatim tail.
pub recent_boundary-keeps_exchange :
    (history : List Message) (keep_recent i j : ℕ)
    → Exchange history i j
    → (recent_boundary history keep_recent ≤ i) ⊎ (j < recent_boundary history keep_recent)
recent_boundary-keeps_exchange history keep_recent i j e =
    let b : ℕ = recent_boundary history keep_recent in
    let clean = (recent_boundary-IsBoundary history keep_recent).clean in
    elim (dec_lt i b) [
      | no h ↦ inl (omega arith)
      | yes h ↦ elim (dec_lt j b) [
        | yes k ↦ inr k
        | no k ↦ absurd (Clean-of_exchange history i j b e clean h (omega arith))
      ]
    ]

-- The boundary depends on the messages' tool calls and results alone.
pub boundary_from_congr :
    (xs ys : List Message) (b : ℕ)
    → ((i : ℕ)
        → holds_at has_tool_result (get_elem? xs i) ≡ holds_at has_tool_result (get_elem? ys i))
    → ((i : ℕ) → holds_at has_tool_call (get_elem? xs i) ≡ holds_at has_tool_call (get_elem? ys i))
    → boundary_from xs b ≡ boundary_from ys b
unfolding boundary_from
boundary_from_congr xs ys zero r c = refl
boundary_from_congr xs ys (suc b) r c = rw (r (suc b), c b, boundary_from_congr xs ys b r c)
