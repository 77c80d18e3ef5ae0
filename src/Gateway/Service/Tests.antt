-- ===== src/Gateway/Service/Tests.antt =====
-- packages/gateway-model/src/gateway.ts: a gateway on the catalog that ships, in whole cents, and
-- instances of the theorems. A model is the name that opens it.
use open_source_harness.Common.{
  some, ◌≡◌, ◌↔◌, refl, List, [], ◌∷◌, false, Str, codes, str_eq, before_first, includes, leb,
}
use open_source_harness.Common.Dict.{get, member}
use open_source_harness.Protocol.Cost.{add_cost, zero_cost}
use open_source_harness.Gateway.Budget.{new_meter, record_cost, assert_can_proceed, run_exceeded}
use open_source_harness.Gateway.Budget.Tests.{cents, cost_of, limits}
use open_source_harness.Gateway.Catalog.Allowed.{MayUse}
use open_source_harness.Gateway.Catalog.{
  ModelEntry, permits, get_entry, resolve, unknown_alias, not_permitted,
}
use open_source_harness.Gateway.Catalog.Default.{standard_entry, default_by_alias}
use open_source_harness.Gateway.Service.{
  Provider, vendor_of, ModelGateway, resolved, over_budget, refused, offer, IsOpened, resolve_model,
  price_only, record_usage, resolve_model-iff-allowed,
}

abbrev pub names : Provider
names = record { Model = Str; Tools = List Str; open_model = λ s. s; lower = λ s. s }

abbrev pub gateway : ModelGateway cents names
gateway = record {
  catalog = default_by_alias cents;
  meter = new_meter cents;
  limits = limits;
  provider_tools = codes "web_search" ∷ [];
}

abbrev spent : ModelGateway cents names
spent = record gateway { meter = record_cost cents gateway.meter (cost_of 6) }

sealed : Unit {0}
unfolding resolve_model offer vendor_of includes before_first record_cost add_cost zero_cost
    assert_can_proceed resolve get_entry get permits member str_eq price_only record_usage
sealed = tt

answers :
    (resolve_model cents names spent (codes "Standard") (codes "guest")
      ≡ over_budget (run_exceeded 6 5))
    × (resolve_model cents names gateway (codes "Standard") (codes "guest")
        ≡ resolved (offer cents names gateway (standard_entry cents)))
    × (resolve_model cents names gateway (codes "Premium") (codes "guest") ≡ refused not_permitted)
    × (resolve_model cents names gateway (codes "Gone") (codes "guest") ≡ refused unknown_alias)
    × (vendor_of (λ s. s) (codes "anthropic/claude-sonnet-5") ≡ codes "anthropic")
unfolding sealed
answers = (refl, refl, refl, refl, refl)

resolve_model-iff-allowed_example :
    (resolve_model cents names gateway (codes "Standard") (codes "guest")
      ≡ resolved (offer cents names gateway (standard_entry cents)))
    ↔ ((leb 5 0 ≡ false)
        × (leb 8 0 ≡ false)
        × (e : ModelEntry cents) × (get (codes "Standard") (default_by_alias cents) ≡ some e)
        × MayUse cents e (codes "guest")
        × IsOpened cents names gateway e (offer cents names gateway (standard_entry cents)))
unfolding sealed
resolve_model-iff-allowed_example =
    resolve_model-iff-allowed cents names gateway (codes "Standard") (codes "guest")
      (offer cents names gateway (standard_entry cents))
