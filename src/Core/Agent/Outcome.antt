-- ===== src/Core/Agent/Outcome.antt =====
-- packages/core/src/agent.ts, send: every turn ends, in its events and in its result.
use open_source_harness.Common.{
  ◌≡◌, ◌≢◌, Option, Option-cases, refl, sym, ap, ◌∙◌, inl, inr, true, none, some, List, [], ◌∷◌,
  ◌++◌, Str, All, All-append, append_assoc, append-nil, length,
}
use open_source_harness.Protocol.Messages.{Message}
use open_source_harness.Protocol.Cost.{Amounts, CostBuckets}
use open_source_harness.Protocol.Events.{
  complete, idle, Body, run_finished, run_error, status, message_started, message_finished,
  cost_updated, WorkspaceEvent,
}
use open_source_harness.Gateway.Catalog.{Result, ok, err}
use open_source_harness.Gateway.Service.{
  Provider, ModelGateway, Resolution, resolved, over_budget, refused,
}
use open_source_harness.Core.Agent.{
  Host, TurnError, budget_error, catalog_error, integrity_error, other_error, Agent, emit,
  push_message, Outbound, Turn, Looped, continues, throws, Ending, usage_resolves, usage_rejects,
  stream_throws, TurnResult,
}
use open_source_harness.Core.Agent.Send.{
  is_budget, cause_of, Request, assistant_message, user_message, emitting, fail_turn,
  finish_answered, finish_costed, finish_turn, ask, Sent, returned, rejected, send_or_reject,
  end_turn, start_turn, opening, try_turn, begin_turn, send,
}
use open_source_harness.Core.Agent.Stream.{Grew, Grows, run_stream-Grows}
use open_source_harness.Core.Agent.Trace.{is_inner, deltas, deltas-append}

two_more {ℓ} :
    {A : Type ℓ} {xs : List A} (ys zs : List A) (x y : A)
    → xs ≡ ys ++ zs
    → (xs ++ x ∷ []) ++ y ∷ [] ≡ (ys ++ zs) ++ x ∷ y ∷ []
two_more {xs = xs} ys zs x y h = append_assoc xs (x ∷ []) (y ∷ []) ∙ ap (λ es. es ++ x ∷ y ∷ []) h

module _ (amounts : Amounts) (provider : Provider) (host : Host amounts provider) where
  -- The turn `t` within a run whose agent was `b` when it began.
  pub record IsWithin (b : Agent amounts provider host) (t : Turn amounts provider host)
      : Type 0 where
    pub middle : List (WorkspaceEvent amounts)
    pub emitted : t.agent.emitted ≡ b.emitted ++ middle
    pub inner : All (λ e. is_inner amounts e.body ≡ true) middle
    pub text : t.text ≡ deltas amounts middle
    pub history : t.agent.history ≡ b.history

  is_budget-ne-complete :
      (e : TurnError amounts provider host) → is_budget amounts provider host e ≢ complete
  is_budget-ne-complete (budget_error e) h = cc
  is_budget-ne-complete (catalog_error e) h = cc
  is_budget-ne-complete (integrity_error target missing) h = cc
  is_budget-ne-complete other_error h = cc

  module _ (message_of : TurnError amounts provider host → Str)
      (request : Request amounts provider host) where
    -- What a turn adds to the history of the agent `b`: its text as the assistant's message, where it is
    -- complete; nothing, where it fails before that; or that message, where it fails because the
    -- message's own callback throws.
    pub data IsAnswered (b : Agent amounts provider host)
        (out : Agent amounts provider host × TurnResult amounts provider host) : Type 0 where
      answers :
          out.1.stopped_by ≡ complete
          → out.1.error ≡ none
          → out.0.history
            ≡ b.history
              ++ assistant_message amounts provider host request.message_id out.1.text ∷ []
          → IsAnswered b out
      fails :
          (e : TurnError amounts provider host)
          → out.1.stopped_by ≢ complete
          → out.1.error ≡ some e
          → out.0.history ≡ b.history
          → IsAnswered b out
      answer_fails :
          (thrown e : TurnError amounts provider host)
          → request.answer_refused ≡ some thrown
          → out.1.stopped_by ≢ complete
          → out.1.error ≡ some e
          → out.0.history
            ≡ b.history
              ++ assistant_message amounts provider host request.message_id out.1.text ∷ []
          → IsAnswered b out

    -- What a turn leaves behind, for the agent `b` at the opening of its run.
    pub record IsClosed (b : Agent amounts provider host)
        (out : Agent amounts provider host × TurnResult amounts provider host) : Type 0 where
      pub middle : List (WorkspaceEvent amounts)
      pub finished : WorkspaceEvent amounts
      pub rest : WorkspaceEvent amounts
      pub emitted : out.0.emitted ≡ (b.emitted ++ middle) ++ finished ∷ rest ∷ []
      pub inner : All (λ e. is_inner amounts e.body ≡ true) middle
      pub finishes : finished.body ≡ run_finished out.1.stopped_by
      pub rests : rest.body ≡ status idle
      pub text : out.1.text ≡ deltas amounts middle
      pub answered : IsAnswered b out

    stamped : Agent amounts provider host → Body amounts → WorkspaceEvent amounts
    stamped agent body = record {
      run_id = request.run_id;
      ts = host.clock (length agent.emitted);
      body = body;
    }

    -- A turn that emits one more event is still within its run.
    IsWithin-emit :
        (b : Agent amounts provider host) (t : Turn amounts provider host) (body : Body amounts)
        → IsWithin b t
        → is_inner amounts body ≡ true
        → deltas amounts (stamped t.agent body ∷ []) ≡ []
        → IsWithin b
            (record t { agent = emitting amounts provider host message_of request t.agent body })
    unfolding emit stamped
    IsWithin-emit b t body w i d = record {
      middle = w.middle ++ stamped t.agent body ∷ [];
      emitted =
          ap (λ es. es ++ stamped t.agent body ∷ []) w.emitted
          ∙ append_assoc b.emitted w.middle (stamped t.agent body ∷ []);
      inner =
          All-append (λ e. is_inner amounts e.body ≡ true) w.middle (stamped t.agent body ∷ [])
            w.inner (i, tt);
      text =
          w.text
          ∙ sym (append-nil (deltas amounts w.middle))
          ∙ ap (◌++◌ (deltas amounts w.middle)) (sym d)
          ∙ sym (deltas-append amounts w.middle (stamped t.agent body ∷ []));
      history = w.history;
    }

    fail_turn-closes :
        (b : Agent amounts provider host) (t : Turn amounts provider host)
        (thrown : TurnError amounts provider host) (history : List Message)
        → IsWithin (record b { history = history }) t
        → IsAnswered b (fail_turn amounts provider host message_of request t thrown)
        → IsClosed b (fail_turn amounts provider host message_of request t thrown)
    unfolding fail_turn emit stamped
    fail_turn-closes b t thrown history w answered =
        let cause = cause_of amounts provider host t.stream_error thrown in
        let v =
          IsWithin-emit (record b { history = history }) t (run_error (message_of cause)) w refl
            refl in
        let failed =
          emitting amounts provider host message_of request t.agent
            (run_error (message_of cause)) in
        let reason = run_finished (is_budget amounts provider host cause) in
        record {
          middle = v.middle;
          finished = stamped failed reason;
          rest =
              stamped (emitting amounts provider host message_of request failed reason)
                (status idle);
          emitted = two_more b.emitted v.middle _ _ v.emitted;
          inner = v.inner;
          finishes = refl;
          rests = refl;
          text = v.text;
          answered = answered;
        }

    fail_turn-IsClosed :
        (b : Agent amounts provider host) (t : Turn amounts provider host)
        (thrown : TurnError amounts provider host)
        → IsWithin b t
        → IsClosed b (fail_turn amounts provider host message_of request t thrown)
    unfolding fail_turn emit
    fail_turn-IsClosed b t thrown w =
        let cause = cause_of amounts provider host t.stream_error thrown in
        fail_turn-closes b t thrown b.history w
          (fails cause (is_budget-ne-complete cause) refl w.history)

    -- The answer is in the history when its callback throws.
    finish_answered-IsClosed :
        (b : Agent amounts provider host) (t : Turn amounts provider host)
        (refusal : Option (TurnError amounts provider host))
        → request.answer_refused ≡ refusal
        → IsWithin b t
        → IsClosed b (
            finish_answered amounts provider host message_of request t
              (push_message amounts provider host t.agent
                (assistant_message amounts provider host request.message_id t.text))
              refusal)
    unfolding fail_turn push_message emit stamped
    finish_answered-IsClosed b t (some e) r w =
        let message = assistant_message amounts provider host request.message_id t.text in
        let cause = cause_of amounts provider host t.stream_error e in
        let longer = ap (λ h. h ++ message ∷ []) w.history in
        fail_turn-closes b (record t { agent = push_message amounts provider host t.agent message })
          e (b.history ++ message ∷ [])
          (record {
            middle = w.middle;
            emitted = w.emitted;
            inner = w.inner;
            text = w.text;
            history = longer;
          })
          (answer_fails e cause r (is_budget-ne-complete cause) refl longer)
    finish_answered-IsClosed b t none r w =
        let message = assistant_message amounts provider host request.message_id t.text in
        let answered = push_message amounts provider host t.agent message in
        record {
          middle = w.middle;
          finished = stamped answered (run_finished complete);
          rest =
              stamped
                (emitting amounts provider host message_of request answered (run_finished complete))
                (status idle);
          emitted = two_more b.emitted w.middle _ _ w.emitted;
          inner = w.inner;
          finishes = refl;
          rests = refl;
          text = w.text;
          answered = answers refl refl (ap (λ h. h ++ message ∷ []) w.history);
        }

    finish_costed-IsClosed :
        (b : Agent amounts provider host) (t : Turn amounts provider host)
        (refusal : Option (TurnError amounts provider host))
        → IsWithin b t
        → IsClosed b (finish_costed amounts provider host message_of request t t.agent refusal)
    unfolding push_message
    finish_costed-IsClosed b t (some e) w = fail_turn-IsClosed b t e w
    finish_costed-IsClosed b t none w = finish_answered-IsClosed b t request.answer_refused refl w

    -- The price does not change what a turn that has streamed leaves behind.
    finish_turn-IsClosed :
        (b : Agent amounts provider host) (t : Turn amounts provider host)
        (priced : ModelGateway amounts provider × Result (CostBuckets amounts))
        → IsWithin b t
        → IsClosed b (finish_turn amounts provider host message_of request t priced)
    unfolding finish_turn emit stamped
    finish_turn-IsClosed b t (gateway, err e) w = fail_turn-IsClosed b t (catalog_error e) w
    finish_turn-IsClosed b t (gateway, ok cost) w =
        let charged = record t { agent = record t.agent { gateway = gateway } } in
        let costs = cost_updated (record {
          run = gateway.meter.run;
          session = gateway.meter.session;
          delta = cost;
          model = t.agent.current_alias;
        }) in
        let v =
          IsWithin-emit b charged costs
            (record {
              middle = w.middle;
              emitted = w.emitted;
              inner = w.inner;
              text = w.text;
              history = w.history;
            })
            refl refl in
        finish_costed-IsClosed b _ request.cost_refused v

    IsWithin-closing :
        (b : Agent amounts provider host) (t : Turn amounts provider host)
        → IsWithin b t
        → IsWithin b (record t {
          agent =
              emitting amounts provider host message_of request t.agent
                (message_finished request.message_id);
        })
    unfolding stamped
    IsWithin-closing b t w = IsWithin-emit b t (message_finished request.message_id) w refl refl

    abbrev IsLoopWithin : Agent amounts provider host → Looped amounts provider host → Type 0
    IsLoopWithin b (continues t) = IsWithin b t
    IsLoopWithin b (throws t e) = IsWithin b t

    end_turn-IsClosed :
        (b : Agent amounts provider host) (l : Looped amounts provider host)
        (ending : Ending amounts provider host)
        → IsLoopWithin b l
        → IsClosed b (end_turn amounts provider host message_of request l ending)
    unfolding end_turn
    end_turn-IsClosed b (throws t e) ending w = fail_turn-IsClosed b t e w
    end_turn-IsClosed b (continues t) (stream_throws e) w = fail_turn-IsClosed b t e w
    end_turn-IsClosed b (continues t) (usage_rejects e) w =
        fail_turn-IsClosed b _ e (IsWithin-closing b t w)
    end_turn-IsClosed b (continues t) (usage_resolves usage) w =
        finish_turn-IsClosed b _ _ (IsWithin-closing b t w)

    IsWithin-Grew :
        (b : Agent amounts provider host) (t u : Turn amounts provider host)
        → IsWithin b t
        → Grew amounts provider host t u
        → IsWithin b u
    IsWithin-Grew b t u w g = record {
      middle = w.middle ++ g.more;
      emitted =
          g.emitted ∙ ap (λ es. es ++ g.more) w.emitted ∙ append_assoc b.emitted w.middle g.more;
      inner = All-append (λ e. is_inner amounts e.body ≡ true) w.middle g.more w.inner g.inner;
      text =
          g.text
          ∙ ap (λ s. s ++ deltas amounts g.more) w.text
          ∙ sym (deltas-append amounts w.middle g.more);
      history = g.history ∙ w.history;
    }

    loop_within :
        (b : Agent amounts provider host) (t : Turn amounts provider host)
        (l : Looped amounts provider host)
        → IsWithin b t
        → Grows amounts provider host t l
        → IsLoopWithin b l
    loop_within b t (continues u) w g = IsWithin-Grew b t u w g
    loop_within b t (throws u e) w g = IsWithin-Grew b t u w g

    IsWithin-start :
        (b : Agent amounts provider host)
        → IsWithin b (start_turn amounts provider host message_of request b)
    IsWithin-start b = record {
      middle = [];
      emitted = sym (append-nil b.emitted);
      inner = tt;
      text = refl;
      history = refl;
    }

    IsWithin-opening :
        (b : Agent amounts provider host) (requests : List (Outbound amounts provider host))
        → IsWithin b
            (record (start_turn amounts provider host message_of request (
              emitting amounts provider host message_of request b
                (message_started request.message_id))) { requests = requests })
    unfolding emit stamped
    IsWithin-opening b requests = record {
      middle = stamped b (message_started request.message_id) ∷ [];
      emitted = refl;
      inner = (refl, tt);
      text = refl;
      history = refl;
    }

    try_turn-IsClosed :
        (b : Agent amounts provider host) (r : Resolution amounts provider)
        → IsClosed b (try_turn amounts provider host message_of request b r)
    unfolding try_turn
    try_turn-IsClosed b (over_budget exceeded) =
        fail_turn-IsClosed b _ (budget_error exceeded) (IsWithin-start b)
    try_turn-IsClosed b (refused e) = fail_turn-IsClosed b _ (catalog_error e) (IsWithin-start b)
    try_turn-IsClosed b (resolved model) =
        let t =
          record (start_turn amounts provider host message_of request (
            emitting amounts provider host message_of request b
              (message_started request.message_id))) {
                requests = opening amounts provider host b request.extra ∷ [];
              } in
        end_turn-IsClosed b _ request.ending (
          loop_within b t _ (IsWithin-opening b _) (
            run_stream-Grows amounts provider host request.run_id request.message_id model t
              request.events))

    pub returned-IsClosed :
        (agent : Agent amounts provider host)
        → IsClosed
            (begin_turn amounts provider host message_of request agent)
            (send amounts provider host message_of request agent)
    unfolding send
    returned-IsClosed agent = try_turn-IsClosed _ _

    -- What `send` gives for the agent before it.
    pub data IsSent (agent : Agent amounts provider host) (s : Sent amounts provider host)
        : Type 0 where
      refused_message :
          (e : TurnError amounts provider host) (left : Agent amounts provider host)
          → request.asked_refused ≡ some e
          → s ≡ rejected left e
          → left.emitted ≡ agent.emitted
          → left.history
            ≡ agent.history
              ++ user_message amounts provider host request.user_id request.user_text
                  request.attachments
                ∷ []
          → IsSent agent s
      sent_message :
          (out : Agent amounts provider host × TurnResult amounts provider host)
          → request.asked_refused ≡ none
          → s ≡ returned out
          → IsClosed (begin_turn amounts provider host message_of request agent) out
          → IsSent agent s

    -- Where the callback for the user's message throws, send rejects with that error: the message is in
    -- the history and nothing was emitted. Otherwise every turn ends, whatever the SDK yields and
    -- wherever it fails: behind the opening of its run the agent emits events that neither open nor
    -- close a run, then one that finishes it with the reason of the result, then that it is idle, and
    -- the text of the result is what the deltas make up. Either the turn is complete, has no error and
    -- appends that text to the history as the assistant's message; or it is not complete, carries an
    -- error and appends nothing; or the callback for that message throws, and then the turn is not
    -- complete and carries an error though the message is in the history.
    pub send-IsClosed :
        (agent : Agent amounts provider host)
        → IsSent agent (send_or_reject amounts provider host message_of request agent)
    unfolding send_or_reject ask push_message
    send-IsClosed agent = elim (Option-cases request.asked_refused) [
      | inl stored ↦
          sent_message _ stored (rw (send_or_reject, stored) refl) (returned-IsClosed agent)
      | inr (e, thrown) ↦
          refused_message e (ask amounts provider host message_of request agent) thrown
            (rw (send_or_reject, thrown) refl) refl refl
    ]
