-- ===== src/Core/Condenser/Summary.antt =====
-- packages/core/src/condenser.ts, summariseMiddle: the lossy pass.
use open_source_harness.Common.{
  ℕ, ◌≡◌, ◌-◌, ◌≤◌, ◌<◌, min, inl, inr, Bool, true, false, Option, some, List, ◌∷◌, ◌++◌, length,
  Str, Bool-cases, arith, refl, take, drop, ltb, length-append, length-take, length-drop,
}
use open_source_harness.Common.Monad.{Ensures, Ensures-some, Ensures-bind}
use open_source_harness.Protocol.Messages.{Message}
use open_source_harness.Core.Condenser.{recent_boundary, summary_message, summarise_middle}

module _ (summarise : List Message → Option Str) (keep_first keep_recent : ℕ) where
  abbrev pub middle_of : List Message → List Message
  middle_of history = drop keep_first (take (recent_boundary history keep_recent) history)

  abbrev pub with_summary : List Message → Str → List Message
  with_summary history summary =
      take keep_first history
      ++ summary_message (recent_boundary history keep_recent) (length (middle_of history)) summary
        ∷ drop (recent_boundary history keep_recent) history

  -- What the pass returns: the history itself, or the first messages, one unpinned summary in place
  -- of at least two messages, and the verbatim tail.
  pub data Summarised (history : List Message) : List Message × Bool → Type 0 where
    unchanged : (r : List Message × Bool) → r ≡ (history, false) → Summarised history r
    replaced :
        (r : List Message × Bool) (summary : Str)
        → 2 ≤ length (middle_of history)
        → summarise (middle_of history) ≡ some summary
        → r ≡ (with_summary history summary, true)
        → Summarised history r

  pub summarise_middle-Summarised :
      (history : List Message)
      → Ensures (Summarised history) (summarise_middle summarise keep_first keep_recent history)
  unfolding summarise_middle
  summarise_middle-Summarised history = elim (Bool-cases (ltb (length (middle_of history)) 2)) [
    | inl short ↦ rw short (Ensures-some _ _ (unchanged _ refl))
    | inr long ↦ rw long (
        Ensures-bind (λ summary. summarise (middle_of history) ≡ some summary) _
          (summarise (middle_of history)) _ (record { holds = λ summary e. e })
          λ summary e. Ensures-some _ _ (replaced _ summary (ground arith) e refl))
  ]

  length-with_summary :
      (history : List Message) (summary : Str)
      → 2 ≤ length (middle_of history)
      → length (with_summary history summary) < length history
  length-with_summary history summary two =
      let b : ℕ = recent_boundary history keep_recent in
      let tail = drop b history in
      let note = summary_message b (length (middle_of history)) summary in
      let head_length : length (take keep_first history) ≡ min keep_first (length history) =
        length-take keep_first history in
      let tail_length : length tail ≡ length history - b = length-drop b history in
      let middle_length : length (middle_of history) ≡ length (take b history) - keep_first =
        length-drop keep_first (take b history) in
      let before_length : length (take b history) ≡ min b (length history) =
        length-take b history in
      omega (arith, length-append (take keep_first history) (note ∷ tail))

  -- If the pass reports a change, the history is shorter than it was.
  pub summarise_middle-shrinks :
      (history out : List Message)
      → summarise_middle summarise keep_first keep_recent history ≡ some (out, true)
      → length out < length history
  summarise_middle-shrinks history out e =
      go _ ((summarise_middle-Summarised history).holds _ e) refl
    where
      go :
          (r : List Message × Bool)
          → Summarised history r
          → r ≡ (out, true)
          → length out < length history
      go r (unchanged _ h) k = absurd (ground arith)
      go r (replaced _ summary two s h) k =
          let same : with_summary history summary ≡ out = ground arith in
          rw (← same) (length-with_summary history summary two)
