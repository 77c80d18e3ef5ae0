-- ===== src/Core/Agent/Stream.antt =====
-- packages/core/src/agent.ts, the loop over the stream: what it emits and what it keeps.
use open_source_harness.Common.{
  ℕ, ◌+◌, ◌≡◌, refl, sym, ap, ◌∙◌, inl, inr, true, Option, none, some, List, [], ◌∷◌, ◌++◌, Str,
  All, All-append, append_assoc, append-nil, arith, Bool-cases, Option-cases, length,
}
use open_source_harness.Protocol.Cost.{Amounts, CostBuckets}
use open_source_harness.Protocol.Events.{Body, WorkspaceEvent}
use open_source_harness.Gateway.Artifacts.{
  Prepared, prepared, reasoning_integrity_error, prepare_for_provider,
}
use open_source_harness.Gateway.Budget.{assert_can_proceed}
use open_source_harness.Gateway.Catalog.{Result, ok, err}
use open_source_harness.Gateway.Service.{Provider, ResolvedModel, price_only}
use open_source_harness.Core.Condenser.{CondenseResult}
use open_source_harness.Core.Agent.{
  Host, gap_after, Agent, emit, emit_compaction, StepInput, StreamPart, text_start, text_delta,
  reasoning_delta_part, error_part, finish_step, url_source, tool_call_part, tool_result_part,
  tool_error_part, other_part, TurnEvent, prepares, streams, charges, Turn, Looped, continues,
  throws, send_prepared, send_condensed, prepare_step, grow_text, finish_priced, handle_part,
  turn_event, run_stream,
}
use open_source_harness.Core.Agent.Trace.{
  is_inner, delta_of, started_call, reported_call, deltas, started_calls, reported_calls, StepFrom,
  StepsFrom, no_more, then_step, deltas-append, calls-append, StepsFrom-append,
}

module _ (amounts : Amounts) (provider : Provider) (host : Host amounts provider) where
  -- What the loop adds to a turn.
  pub record Grew (t u : Turn amounts provider host) : Type 0 where
    pub more : List (WorkspaceEvent amounts)
    pub emitted : u.agent.emitted ≡ t.agent.emitted ++ more
    pub inner : All (λ e. is_inner amounts e.body ≡ true) more
    pub text : u.text ≡ t.text ++ deltas amounts more
    pub steps : StepsFrom amounts t.step_number more u.step_number
    pub calls :
        t.tool_calls_this_step + started_calls amounts more
        ≡ reported_calls amounts more + u.tool_calls_this_step
    pub history : u.agent.history ≡ t.agent.history
    pub stored : u.agent.stored ≡ t.agent.stored

  -- A change of a turn that emits nothing.
  Grew-quiet :
      (t u : Turn amounts provider host)
      → u.agent.emitted ≡ t.agent.emitted
      → u.text ≡ t.text
      → StepsFrom amounts t.step_number [] u.step_number
      → u.tool_calls_this_step ≡ t.tool_calls_this_step
      → u.agent.history ≡ t.agent.history
      → u.agent.stored ≡ t.agent.stored
      → Grew t u
  Grew-quiet t u e x s c h m = record {
    more = [];
    emitted = e ∙ sym (append-nil t.agent.emitted);
    inner = tt;
    text = x ∙ sym (append-nil t.text);
    steps = s;
    calls = omega (arith, c);
    history = h;
    stored = m;
  }

  Grew-refl : (t : Turn amounts provider host) → Grew t t
  Grew-refl t = Grew-quiet t t refl refl no_more refl refl refl

  Grew-trans : (t u v : Turn amounts provider host) → Grew t u → Grew u v → Grew t v
  Grew-trans t u v g h = record {
    more = g.more ++ h.more;
    emitted =
        h.emitted ∙ ap (λ es. es ++ h.more) g.emitted ∙ append_assoc t.agent.emitted g.more h.more;
    inner = All-append (λ e. is_inner amounts e.body ≡ true) g.more h.more g.inner h.inner;
    text =
        h.text
        ∙ ap (λ s. s ++ deltas amounts h.more) g.text
        ∙ append_assoc t.text (deltas amounts g.more) (deltas amounts h.more)
        ∙ ap (◌++◌ t.text) (sym (deltas-append amounts g.more h.more));
    steps = StepsFrom-append amounts g.steps h.steps;
    calls = omega (arith, g.calls, h.calls, calls-append amounts g.more h.more);
    history = h.history ∙ g.history;
    stored = h.stored ∙ g.stored;
  }

  abbrev pub Grows : Turn amounts provider host → Looped amounts provider host → Type 0
  Grows t (continues u) = Grew t u
  Grows t (throws u e) = Grew t u

  module _ (run_id message_id : Str) (model : ResolvedModel amounts provider) where
    -- A change of a turn that emits one event.
    Grew-emit :
        (t u : Turn amounts provider host) (body : Body amounts)
        → u.agent ≡ emit amounts provider host t.agent run_id body
        → is_inner amounts body ≡ true
        → u.text ≡ t.text ++ delta_of amounts body
        → StepFrom amounts t.step_number body u.step_number
        → t.tool_calls_this_step + started_call amounts body
          ≡ reported_call amounts body + u.tool_calls_this_step
        → Grew t u
    unfolding emit
    Grew-emit t u body e i x s c = record {
      more = record { run_id = run_id; ts = host.clock (length t.agent.emitted); body = body } ∷ [];
      emitted = ap (λ (a : Agent amounts provider host). a.emitted) e;
      inner = (i, tt);
      text = x ∙ ap (◌++◌ t.text) (sym (append-nil (delta_of amounts body)));
      steps = then_step s no_more;
      calls = omega (arith, c);
      history = ap (λ (a : Agent amounts provider host). a.history) e;
      stored = ap (λ (a : Agent amounts provider host). a.stored) e;
    }

    compaction-Grew :
        (t : Turn amounts provider host) (condensed : CondenseResult)
        → Grew t
            (record t { agent = emit_compaction amounts provider host t.agent run_id condensed })
    unfolding emit_compaction
    compaction-Grew t condensed = elim (Bool-cases condensed.compacted) [
      | inl done ↦
          rw (emit_compaction, done)
            (Grew-emit t _ _ refl refl (sym (append-nil t.text)) refl (omega arith))
      | inr untouched ↦ rw (emit_compaction, untouched) (Grew-refl t)
    ]

    prepared-Grew :
        (t : Turn amounts provider host) (input : StepInput amounts provider host) (p : Prepared)
        → Grew t (send_prepared amounts provider host run_id message_id model t input p)
    prepared-Grew t input (prepared result) =
        Grew-emit t _ _ refl refl (sym (append-nil t.text)) refl (omega arith)
    prepared-Grew t input (reasoning_integrity_error target missing) = Grew-refl t

    condensed-Grew :
        (t : Turn amounts provider host) (input : StepInput amounts provider host)
        (c : Option CondenseResult)
        → Grew t (send_condensed amounts provider host run_id message_id model t input c)
    condensed-Grew t input none = Grew-refl t
    condensed-Grew t input (some condensed) = Grew-trans t _ _ (compaction-Grew t condensed) (
        prepared-Grew _ input (prepare_for_provider provider.lower condensed.messages model.vendor))

    prepare_step-Grew :
        (t : Turn amounts provider host) (input : StepInput amounts provider host)
        → Grew t (prepare_step amounts provider host run_id message_id model t input)
    unfolding prepare_step
    prepare_step-Grew t input =
        elim (Option-cases
          (assert_can_proceed amounts t.agent.gateway.limits t.agent.gateway.meter)) [
            | inl clear ↦ rw (prepare_step, clear) (condensed-Grew t input _)
            | inr (exceeded, hit) ↦ rw (prepare_step, hit) (Grew-refl t)
          ]

    Grows-trans :
        (t u : Turn amounts provider host) (l : Looped amounts provider host)
        → Grew t u
        → Grows u l
        → Grows t l
    Grows-trans t u (continues v) g h = Grew-trans t u v g h
    Grows-trans t u (throws v e) g h = Grew-trans t u v g h

    text-Grew :
        (t : Turn amounts provider host) (delta : Str)
        → Grew t (grow_text amounts provider host run_id message_id model t delta)
    text-Grew t [] = Grew-refl t
    text-Grew t (c ∷ delta) = Grew-emit t _ _ refl refl refl refl (omega arith)

    finish-Grew :
        (t : Turn amounts provider host) (searches : ℕ) (duration : Option ℕ) (reason : Option Str)
        (price : Result (CostBuckets amounts))
        → Grows t (
            finish_priced amounts provider host run_id message_id model t searches duration reason
              price)
    finish-Grew t searches duration reason (err e) = Grew-refl t
    finish-Grew t searches duration reason (ok cost) =
        Grew-emit t _ _ refl refl (sym (append-nil t.text)) (refl, refl) (omega arith)

    handle_part-Grows :
        (t : Turn amounts provider host) (part : StreamPart amounts provider host)
        → Grows t (handle_part amounts provider host run_id message_id model t part)
    unfolding handle_part
    handle_part-Grows t text_start = text-Grew t (gap_after t.text)
    handle_part-Grows t (text_delta delta) = Grew-emit t _ _ refl refl refl refl (omega arith)
    handle_part-Grows t (reasoning_delta_part delta) =
        Grew-emit t _ _ refl refl (sym (append-nil t.text)) refl (omega arith)
    handle_part-Grows t (error_part e) = Grew-quiet t _ refl refl no_more refl refl refl
    handle_part-Grows t (finish_step usage searches duration reason) =
        Grows-trans t (record t { web_searches = t.web_searches + searches }) _
          (Grew-quiet t _ refl refl no_more refl refl refl)
          (finish-Grew _ searches duration reason
            (price_only amounts provider t.agent.gateway t.agent.current_alias usage searches))
    handle_part-Grows t (url_source url title) =
        Grew-emit t _ _ refl refl (sym (append-nil t.text)) refl (omega arith)
    handle_part-Grows t (tool_call_part id name input) =
        Grew-emit t _ _ refl refl (sym (append-nil t.text)) refl (omega arith)
    handle_part-Grows t (tool_result_part id output) =
        Grew-emit t _ _ refl refl (sym (append-nil t.text)) refl (omega arith)
    handle_part-Grows t (tool_error_part id message) =
        Grew-emit t _ _ refl refl (sym (append-nil t.text)) refl (omega arith)
    handle_part-Grows t other_part = Grew-refl t

    turn_event-Grows :
        (t : Turn amounts provider host) (event : TurnEvent amounts provider host)
        → Grows t (turn_event amounts provider host run_id message_id model t event)
    unfolding turn_event
    turn_event-Grows t (prepares input) = prepare_step-Grew t input
    turn_event-Grows t (streams part) = handle_part-Grows t part
    turn_event-Grows t (charges cost) = Grew-quiet t _ refl refl no_more refl refl refl

    -- Whatever the SDK yields, the loop emits nothing that opens or closes a run, appends to the text
    -- exactly what it emits as deltas, numbers the finished steps without a gap, reports each tool
    -- call in one step, and leaves the history alone.
    pub run_stream-Grows :
        (t : Turn amounts provider host) (events : List (TurnEvent amounts provider host))
        → Grows t (run_stream amounts provider host run_id message_id model t events)
    unfolding run_stream
    run_stream-Grows t [] = Grew-refl t
    run_stream-Grows t (event ∷ events) =
        after (turn_event amounts provider host run_id message_id model t event)
          (turn_event-Grows t event) (λ u. run_stream-Grows u events)
      where
        after :
            (l : Looped amounts provider host)
            → Grows t l
            → ((u : Turn amounts provider host)
                → Grows u (run_stream amounts provider host run_id message_id model u events))
            → Grows t (elim l [
              | continues next ↦
                  run_stream amounts provider host run_id message_id model next events
              | throws next e ↦ throws next e
            ])
        after (continues u) g rest = Grows-trans t u _ g (rest u)
        after (throws u e) g rest = g
