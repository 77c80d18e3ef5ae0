-- ===== src/Core/Condenser/Laws.antt =====
-- packages/core/src/condenser.ts, condense: what every result of a compaction has in common.
use open_source_harness.Common.{
  ◌≡◌, inl, inr, false, some, List, ◌++◌, Str, Bool-cases, refl, sym, ap, ◌∙◌, take, drop, leb,
  filter, All-filter, take-append-drop, codes,
}
use open_source_harness.Common.Monad.{Ensures, Ensures-some, Ensures-bind}
use open_source_harness.Protocol.Messages.{Message}
use open_source_harness.Core.Tokens.{Runtime, estimate_tokens}
use open_source_harness.Core.Condenser.{
  CondenserOptions, CondenseResult, elide_pass, summarise_pass, is_pinned, is_unpinned, condense,
  ran, strategy_name, size_of_messages,
}
use open_source_harness.Core.Condenser.Passes.{
  tail_start, Passed, Elision, marked_half, others_half, elide_pass-Elision, summarise_pass-Passed,
}

module _ (runtime : Runtime) (options : CondenserOptions) where
  -- The facts that hold of every result.
  pub record Condensed (input : List Message) (r : CondenseResult) : Type 0 where
    pub kept_pinned : filter is_pinned r.messages ≡ filter is_pinned input
    pub front : List Message
    pub kept_tail :
        filter is_unpinned r.messages
        ≡ front
          ++ drop (tail_start runtime options (filter is_unpinned input)) (filter is_unpinned input)
    pub honest : r.compacted ≡ false → filter is_unpinned r.messages ≡ filter is_unpinned input
    pub before : r.before ≡ size_of_messages runtime options input
    pub after : r.after ≡ size_of_messages runtime options r.messages

  untouched-Condensed :
      (input : List Message)
      → Condensed input (record {
        messages = input;
        compacted = false;
        strategy = codes "none";
        before = size_of_messages runtime options input;
        after = size_of_messages runtime options input;
      })
  untouched-Condensed input =
      let history = filter is_unpinned input in
      record {
        kept_pinned = refl;
        front = take (tail_start runtime options history) history;
        kept_tail = sym (take-append-drop (tail_start runtime options history) history);
        honest = λ e. refl;
        before = refl;
        after = refl;
      }

  -- The result that is assembled from the histories that the two passes left.
  abbrev assembled : List Message → List Message → List Str → CondenseResult
  assembled input history passes =
      let messages = filter is_pinned input ++ history in
      record {
        messages = messages;
        compacted = ran passes;
        strategy = strategy_name passes;
        before = size_of_messages runtime options input;
        after = size_of_messages runtime options messages;
      }

  assembled-Condensed :
      (input : List Message) (elided shrunk : List Message × List Str)
      → Elision runtime options (filter is_unpinned input) elided
      → Passed runtime options elided.0 elided.1 shrunk
      → Condensed input (assembled input shrunk.0 shrunk.1)
  assembled-Condensed input elided shrunk e p = record {
    kept_pinned = marked_half input shrunk.0 p.unpinned;
    front = p.front;
    kept_tail =
        others_half input shrunk.0 p.unpinned
        ∙ p.tail
        ∙ ap (λ n. p.front ++ drop n elided.0) e.start
        ∙ ap (◌++◌ p.front) e.tail;
    honest = λ q. others_half input shrunk.0 p.unpinned ∙ (p.quiet q).0 ∙ e.quiet ((p.quiet q).1);
    before = refl;
    after = refl;
  }

  condense-Condensed :
      (input : List Message) → Ensures (Condensed input) (condense runtime options input)
  unfolding condense
  condense-Condensed input =
      elim (Bool-cases (leb (estimate_tokens runtime input) options.max_tokens)) [
        | inl within ↦ rw within (Ensures-some _ _ (untouched-Condensed input))
        | inr over ↦ rw over (
            Ensures-bind _ _
              (elide_pass runtime options options.persist_tool_output (filter is_unpinned input)) _
              (elide_pass-Elision runtime options options.persist_tool_output
                (filter is_unpinned input) (All-filter is_unpinned input))
              λ elided e.
                Ensures-bind _ _
                  (summarise_pass runtime options options.summarise (filter is_pinned input)
                    elided.0 elided.1)
                  _
                  (summarise_pass-Passed runtime options options.summarise (filter is_pinned input)
                    elided.0 elided.1 e.unpinned)
                  λ shrunk p. Ensures-some _ _ (assembled-Condensed input elided shrunk e p))
      ]

  -- The pinned messages of a result are those of the input: the same ones, in the same order,
  -- whatever the passes did.
  pub condense_keeps_pinned :
      (input : List Message) (r : CondenseResult)
      → condense runtime options input ≡ some r
      → filter is_pinned r.messages ≡ filter is_pinned input
  condense_keeps_pinned input r e = ((condense-Condensed input).holds r e).kept_pinned

  -- The unpinned messages of a result end in the verbatim tail of the input's unpinned messages,
  -- which begins at their recent boundary, whatever the passes did before it.
  pub condense_keeps_tail :
      (input : List Message) (r : CondenseResult)
      → condense runtime options input ≡ some r
      → (front : List Message) × (filter is_unpinned r.messages
          ≡ front
            ++ drop
                (tail_start runtime options (filter is_unpinned input))
                (filter is_unpinned input))
  condense_keeps_tail input r e =
      let c = (condense-Condensed input).holds r e in (c.front, c.kept_tail)

  -- A result that says it is not compacted has exactly the unpinned messages of the input.
  pub condense_uncompacted :
      (input : List Message) (r : CondenseResult)
      → condense runtime options input ≡ some r
      → r.compacted ≡ false
      → filter is_unpinned r.messages ≡ filter is_unpinned input
  condense_uncompacted input r e = ((condense-Condensed input).holds r e).honest

  -- The two sizes of a result are the number of messages and the estimate of the input and of the
  -- result's own messages.
  pub condense_sizes :
      (input : List Message) (r : CondenseResult)
      → condense runtime options input ≡ some r
      → (r.before ≡ size_of_messages runtime options input)
        × (r.after ≡ size_of_messages runtime options r.messages)
  condense_sizes input r e = let c = (condense-Condensed input).holds r e in (c.before, c.after)
