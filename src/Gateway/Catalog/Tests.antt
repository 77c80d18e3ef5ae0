-- ===== src/Gateway/Catalog/Tests.antt =====
-- packages/gateway-model/src/catalog.ts: the catalog that ships, in whole cents, and instances of
-- the theorems.
use open_source_harness.Common.{◌≡◌, refl, [], ◌∷◌, Str, codes, str_eq}
use open_source_harness.Common.Dict.{member, put}
use open_source_harness.Gateway.Budget.Tests.{cents}
use open_source_harness.Gateway.Catalog.{
  ok, err, duplicate_alias, no_floor, new_catalog, permits, list_for_role, resolve, floor,
}
use open_source_harness.Gateway.Catalog.Access.{}
use open_source_harness.Gateway.Catalog.Default.{
  light_entry, standard_entry, fast_entry, default_entries, default_by_alias, default_catalog,
  default_catalog_lem,
}

abbrev guest : Str
guest = codes "guest"

sealed : Unit {0}
unfolding new_catalog list_for_role resolve floor str_eq put member permits
sealed = tt

refusals :
    (new_catalog cents [] ≡ err no_floor)
    × (new_catalog cents (light_entry cents ∷ light_entry cents ∷ []) ≡ err duplicate_alias)
    × (new_catalog cents (standard_entry cents ∷ []) ≡ err no_floor)
    × (list_for_role cents (default_by_alias cents) guest
        ≡ light_entry cents ∷ standard_entry cents ∷ fast_entry cents ∷ [])
unfolding sealed
refusals = (refl, refl, refl, refl)

default_built : new_catalog cents (default_entries cents) ≡ ok (default_by_alias cents)
unfolding default_catalog
default_built = default_catalog_lem cents
