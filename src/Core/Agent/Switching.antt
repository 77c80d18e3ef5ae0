-- ===== src/Core/Agent/Switching.antt =====
-- packages/core/src/agent.ts, switchModel: when the model of a conversation changes.
use open_source_harness.Common.{
  ◌≡◌, refl, sym, ap, ◌⊎◌, inl, inr, Bool, true, false, Str, arith, Bool-cases,
}
use open_source_harness.Protocol.Cost.{Amounts}
use open_source_harness.Protocol.Events.{model_switched}
use open_source_harness.Gateway.Artifacts.{is_switch_safe, same_provider}
use open_source_harness.Gateway.Catalog.{ModelEntry, Result, ok, err, get_entry}
use open_source_harness.Gateway.Service.{Provider}
use open_source_harness.Core.Agent.{vendor_of_model, Host, Agent, emit}
use open_source_harness.Core.Agent.Send.{switched, switch_between, switch_model}

module _ (amounts : Amounts) (provider : Provider) (host : Host amounts provider) where
  -- What is so when the agent `a` has become `b`.
  pub record HasSwitched (a b : Agent amounts provider host) (alias : Str) (boundary : Bool)
      : Type 0 where
    pub from : ModelEntry amounts
    pub to : ModelEntry amounts
    pub from_found : get_entry amounts a.gateway.catalog a.current_alias ≡ ok from
    pub to_found : get_entry amounts a.gateway.catalog alias ≡ ok to
    pub safe :
        (same_provider provider.lower
            (vendor_of_model from.upstream_model)
            (vendor_of_model to.upstream_model)
          ≡ true)
        ⊎ (boundary ≡ true)
    pub current : b.current_alias ≡ alias
    pub history : b.history ≡ a.history

  accepted :
      (from_vendor to_vendor : Str) (boundary : Bool)
      → is_switch_safe provider.lower from_vendor to_vendor boundary ≡ true
      → (same_provider provider.lower from_vendor to_vendor ≡ true) ⊎ (boundary ≡ true)
  unfolding is_switch_safe
  accepted from_vendor to_vendor true h = inr refl
  accepted from_vendor to_vendor false h =
      elim (Bool-cases (same_provider provider.lower from_vendor to_vendor)) [
        | inl same ↦ inl same
        | inr other ↦ absurd (ground arith)
      ]

  switched_between :
      (a b : Agent amounts provider host) (alias : Str) (boundary : Bool)
      (from to : Result (ModelEntry amounts))
      → get_entry amounts a.gateway.catalog a.current_alias ≡ from
      → get_entry amounts a.gateway.catalog alias ≡ to
      → switch_between amounts provider host a alias boundary from to ≡ switched b
      → HasSwitched a b alias boundary
  unfolding emit
  switched_between a b alias boundary (err e) to f t h = absurd (ground arith)
  switched_between a b alias boundary (ok from) (err e) f t h = absurd (ground arith)
  switched_between a b alias boundary (ok from) (ok to) f t h =
      elim (Bool-cases (
        is_switch_safe provider.lower (vendor_of_model from.upstream_model)
          (vendor_of_model to.upstream_model) boundary)) [
            | inl safe ↦
                let same : emit amounts provider host (record a { current_alias = alias })
                      a.thread_id (model_switched a.current_alias alias boundary)
                    ≡ b =
                  ground arith in
                record {
                  from = from;
                  to = to;
                  from_found = f;
                  to_found = t;
                  safe = accepted _ _ boundary safe;
                  current = sym (ap (λ (c : Agent amounts provider host). c.current_alias) same);
                  history = sym (ap (λ (c : Agent amounts provider host). c.history) same);
                }
            | inr unsafe ↦ absurd (ground arith)
          ]

  -- A switch of the model is accepted only between models that the catalog knows, and only where both
  -- come from the same provider or the caller is at a compaction boundary. Then the alias is the new
  -- one and the history is what it was.
  pub switch_model_is_safe :
      (a b : Agent amounts provider host) (alias : Str) (boundary : Bool)
      → switch_model amounts provider host a alias boundary ≡ switched b
      → HasSwitched a b alias boundary
  unfolding switch_model
  switch_model_is_safe a b alias boundary h = switched_between a b alias boundary _ _ refl refl h
