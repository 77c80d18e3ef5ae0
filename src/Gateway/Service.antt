-- ===== src/Gateway/Service.antt =====
-- packages/gateway-model/src/gateway.ts: the gateway in front of the models, which joins the catalog,
-- the totals and the spend ceiling. The provider's SDK opens a model (`open_model`), and `lower` is
-- toLowerCase. The key of the provider is left out.
pub mod Tests
use mathlib.Core.Path.{subst}
use open_source_harness.Common.{
  ℕ, ◌≡◌, refl, sym, ap, ◌∙◌, ◌↔◌, inl, inr, Bool, true, false, Option, none, some, Str, includes,
  before_first, Bool-cases, Option-cases, arith, if◌then◌else◌,
}
use open_source_harness.Protocol.Cost.{Amounts, CostBuckets, ModelRates}
use open_source_harness.Gateway.Budget.{
  LanguageModelUsage, price_usage_report, Meter, BudgetLimits, BudgetExceeded, record_cost,
  start_run, assert_can_proceed, is_tripped,
}
use open_source_harness.Common.Dict.{get}
use open_source_harness.Gateway.Catalog.Allowed.{MayUse, resolve-iff-MayUse}
use open_source_harness.Gateway.Catalog.{
  ModelEntry, ModelCatalog, CatalogError, Result, ok, err, resolve, floor, rates_for,
}

-- what the SDK provides
pub record Provider : Type 1 where
  pub Model : Type 0
  pub Tools : Type 0
  pub open_model : Str → Model
  pub lower : Str → Str

unfoldable pub vendor_of : (Str → Str) → Str → Str
vendor_of lower upstream_model =
    if includes b'/' upstream_model
    then lower (before_first b'/' upstream_model)
    else lower upstream_model

module _ (amounts : Amounts) (provider : Provider) where
  open provider use {Model, Tools, open_model, lower}
  open amounts use {leb}

  pub record ModelGateway : Type 0 where
    pub catalog : ModelCatalog amounts
    pub meter : Meter amounts
    pub limits : BudgetLimits amounts
    pub provider_tools : Tools

  pub record ResolvedModel : Type 0 where
    pub entry : ModelEntry amounts
    pub model : Model
    pub vendor : Str
    pub tools : Tools

  pub data Resolution : Type 0 where
    resolved : ResolvedModel → Resolution
    over_budget : BudgetExceeded amounts → Resolution
    refused : CatalogError → Resolution

  unfoldable pub offer : ModelGateway → ModelEntry amounts → ResolvedModel
  unfolding vendor_of
  offer gateway entry = record {
    entry = entry;
    model = open_model entry.upstream_model;
    vendor = vendor_of lower entry.upstream_model;
    tools = gateway.provider_tools;
  }

  abbrev pub resolution : ModelGateway → Result (ModelEntry amounts) → Resolution
  resolution gateway (ok entry) = resolved (offer gateway entry)
  resolution gateway (err e) = refused e

  unfoldable pub resolve_model : ModelGateway → Str → Str → Resolution
  resolve_model gateway alias role =
      elim (assert_can_proceed amounts gateway.limits gateway.meter) [
        | none ↦ resolution gateway (resolve amounts gateway.catalog alias role)
        | some exceeded ↦ over_budget exceeded
      ]

  unfoldable pub resolve_floor : ModelGateway → Option ResolvedModel
  resolve_floor gateway = elim (floor amounts gateway.catalog) [
    | none ↦ none
    | some entry ↦ some (offer gateway entry)
  ]

  unfoldable pub price_only :
      ModelGateway → Str → Option LanguageModelUsage → ℕ → Result (CostBuckets amounts)
  price_only gateway alias usage web_searches = elim (rates_for amounts gateway.catalog alias) [
    | ok rates ↦ ok (price_usage_report amounts usage rates web_searches)
    | err e ↦ err e
  ]

  abbrev pub recorded :
      ModelGateway → Result (CostBuckets amounts) → ModelGateway × Result (CostBuckets amounts)
  recorded gateway (ok cost) =
      (record gateway { meter = record_cost amounts gateway.meter cost }, ok cost)
  recorded gateway (err e) = (gateway, err e)

  abbrev priced :
      Option LanguageModelUsage → ℕ → Result (ModelRates amounts) → Result (CostBuckets amounts)
  priced usage web_searches (ok rates) = ok (price_usage_report amounts usage rates web_searches)
  priced usage web_searches (err e) = err e

  unfoldable pub record_usage :
      ModelGateway
      → Str
      → Option LanguageModelUsage
      → ℕ
      → ModelGateway × Result (CostBuckets amounts)
  record_usage gateway alias usage web_searches =
      recorded gateway (priced usage web_searches (rates_for amounts gateway.catalog alias))

  unfoldable pub start_gateway_run : ModelGateway → ModelGateway
  start_gateway_run gateway = record gateway { meter = start_run amounts gateway.meter }

  resolution_sound :
      (gateway : ModelGateway) (r : Result (ModelEntry amounts)) (m : ResolvedModel)
      → resolution gateway r ≡ resolved m
      → (e : ModelEntry amounts) × (r ≡ ok e) × (m ≡ offer gateway e)
  resolution_sound gateway (ok entry) m h = (entry, refl, ground arith)
  resolution_sound gateway (err e) m h = cc

  below_limits :
      (gateway : ModelGateway)
      → assert_can_proceed amounts gateway.limits gateway.meter ≡ none
      → (leb gateway.limits.per_run_usd gateway.meter.run.usd ≡ false)
        × (leb gateway.limits.per_session_usd gateway.meter.session.usd ≡ false)
  unfolding assert_can_proceed
  below_limits gateway h = ground arith

  clear_below :
      (gateway : ModelGateway)
      → leb gateway.limits.per_run_usd gateway.meter.run.usd ≡ false
      → leb gateway.limits.per_session_usd gateway.meter.session.usd ≡ false
      → assert_can_proceed amounts gateway.limits gateway.meter ≡ none
  unfolding assert_can_proceed
  clear_below gateway h k = ground arith

  -- The model `m` is what the provider opens for the entry `e`.
  pub record IsOpened (gateway : ModelGateway) (e : ModelEntry amounts) (m : ResolvedModel)
      : Type 0 where
    pub of_entry : m.entry ≡ e
    pub of_model : m.model ≡ open_model e.upstream_model
    pub of_vendor : m.vendor ≡ vendor_of lower e.upstream_model
    pub of_tools : m.tools ≡ gateway.provider_tools

  offer-IsOpened :
      (gateway : ModelGateway) (e : ModelEntry amounts) → IsOpened gateway e (offer gateway e)
  unfolding offer
  offer-IsOpened gateway e = record {
    of_entry = refl;
    of_model = refl;
    of_vendor = refl;
    of_tools = refl;
  }

  is_offer :
      (gateway : ModelGateway) (e : ModelEntry amounts) (m : ResolvedModel)
      → IsOpened gateway e m
      → m ≡ offer gateway e
  unfolding offer
  is_offer gateway e m o = λ i. record {
    entry = o.of_entry i;
    model = o.of_model i;
    vendor = o.of_vendor i;
    tools = o.of_tools i;
  }

  -- The gateway hands out a model exactly when the run total is below its limit, the session total
  -- is below its own, and the catalog has an entry for the alias that is always available, is enabled
  -- for no role in particular, or is enabled for this role; it is then the model that the provider
  -- opens for that entry, with the vendor of its name and the gateway's tools.
  pub resolve_model-iff-allowed :
      (gateway : ModelGateway) (alias role : Str) (m : ResolvedModel)
      → (resolve_model gateway alias role ≡ resolved m) ↔ (
          (leb gateway.limits.per_run_usd gateway.meter.run.usd ≡ false)
          × (leb gateway.limits.per_session_usd gateway.meter.session.usd ≡ false)
          × (e : ModelEntry amounts) × (get alias gateway.catalog ≡ some e)
          × MayUse amounts e role
          × IsOpened gateway e m)
  unfolding resolve_model
  resolve_model-iff-allowed gateway alias role m =
      elim (Option-cases (assert_can_proceed amounts gateway.limits gateway.meter)) [
        | inl clear ↦ (
          λ h.
              let (e, found, same) =
                resolution_sound gateway _ m (rw (resolve_model, clear) at h) in
              let (run_open, session_open) = below_limits gateway clear in
              let use_ = (resolve-iff-MayUse amounts gateway.catalog alias role e).0 found in
              (
                run_open,
                session_open,
                e,
                use_.0,
                use_.1,
                subst (IsOpened gateway e) (sym same) (offer-IsOpened gateway e),
              ),
          λ h.
              let (run_open, session_open, e, stands, may, opened) = h in
              let found =
                (resolve-iff-MayUse amounts gateway.catalog alias role e).1 (stands, may) in
              rw (resolve_model, clear, found) (ap resolved (sym (is_offer gateway e m opened))),
        )
        | inr (exceeded, hit) ↦ (
          λ h. absurd (ground arith),
          λ h.
              let (run_open, session_open, e, stands, may, opened) = h in
              absurd (cc (sym hit ∙ clear_below gateway run_open session_open)),
        )
      ]

  -- A step that is priced for the trace is priced as the turn is when it is recorded. Recording
  -- adds that price to both totals once, and an unknown alias changes no total.
  pub record_usage-adds-price :
      (gateway : ModelGateway) (alias : Str) (usage : Option LanguageModelUsage) (web_searches : ℕ)
      → record_usage gateway alias usage web_searches
        ≡ recorded gateway (price_only gateway alias usage web_searches)
  unfolding record_usage price_only
  record_usage-adds-price gateway alias usage web_searches =
      same (rates_for amounts gateway.catalog alias)
    where
      same :
          (r : Result (ModelRates amounts))
          → recorded gateway (priced usage web_searches r)
            ≡ recorded gateway (elim r [
              | ok rates ↦ ok (price_usage_report amounts usage rates web_searches)
              | err e ↦ err e
            ])
      same (ok rates) = refl
      same (err e) = refl
