-- ===== src/Gateway/Catalog/Default.antt =====
-- packages/gateway-model/src/catalog.ts, defaultCatalog: the catalog that ships.
use open_source_harness.Common.{
  ◌≡◌, refl, ℕ, true, false, some, List, [], ◌∷◌, Str, codes, str_eq, str_eq_comm, if◌then◌else◌,
  arith,
}
use open_source_harness.Common.Dict.{get, put, member}
use open_source_harness.Protocol.Cost.{Amounts, ModelRates}
use open_source_harness.Gateway.Catalog.{
  light, standard, premium, ModelEntry, ModelCatalog, Result, ok, err, not_permitted, new_catalog,
  permits, resolve, floor, insert_by_rate,
}

module _ (amounts : Amounts) where
  open amounts use {literal}

  abbrev pub rates_of : ℕ → ℕ → ModelRates amounts
  rates_of input output = record {
    input_per_mtok = literal input 2;
    output_per_mtok = literal output 2;
    cache_write_multiplier = literal 125 2;
    cache_read_multiplier = literal 1 1;
    web_search_per_call = literal 1 2;
  }

  abbrev pub light_entry : ModelEntry amounts
  light_entry = record {
    alias = codes "Light";
    tier = light;
    provider = codes "openrouter";
    upstream_model = codes "openai/gpt-5.6-luna";
    context_window = 1050000;
    rates = rates_of 20 120;
    enabled_for_roles = [];
    always_available = true;
    supports_reasoning_effort = true;
  }

  abbrev pub standard_entry : ModelEntry amounts
  standard_entry = record {
    alias = codes "Standard";
    tier = standard;
    provider = codes "openrouter";
    upstream_model = codes "anthropic/claude-sonnet-5";
    context_window = 1000000;
    rates = rates_of 200 1000;
    enabled_for_roles = [];
    always_available = false;
    supports_reasoning_effort = true;
  }

  abbrev pub premium_entry : ModelEntry amounts
  premium_entry = record {
    alias = codes "Premium";
    tier = premium;
    provider = codes "openrouter";
    upstream_model = codes "anthropic/claude-opus-5";
    context_window = 1000000;
    rates = rates_of 500 2500;
    enabled_for_roles = codes "staff" ∷ [];
    always_available = false;
    supports_reasoning_effort = true;
  }

  abbrev pub fast_entry : ModelEntry amounts
  fast_entry = record {
    alias = codes "Fast";
    tier = light;
    provider = codes "openrouter";
    upstream_model = codes "google/gemini-3.7-flash";
    context_window = 1048576;
    rates = rates_of 38 188;
    enabled_for_roles = [];
    always_available = false;
    supports_reasoning_effort = true;
  }

  abbrev pub default_entries : List (ModelEntry amounts)
  default_entries = light_entry ∷ standard_entry ∷ premium_entry ∷ fast_entry ∷ []

  abbrev pub default_by_alias : ModelCatalog amounts
  default_by_alias =
      (codes "Light", light_entry)
      ∷ (codes "Standard", standard_entry)
      ∷ (codes "Premium", premium_entry)
      ∷ (codes "Fast", fast_entry)
      ∷ []

  unfoldable pub default_catalog : Result (ModelCatalog amounts)
  default_catalog = new_catalog amounts default_entries

  pub default_catalog_lem : default_catalog ≡ ok default_by_alias
  unfolding default_catalog new_catalog put member str_eq
  default_catalog_lem = refl

  premium_gate :
      (role : Str)
      → resolve amounts default_by_alias (codes "Premium") role
        ≡ (if str_eq role (codes "staff") then ok premium_entry else err not_permitted)
  unfolding resolve get permits member str_eq
  premium_gate role = ground (arith, str_eq_comm role (codes "staff"))

  -- The catalog that ships is accepted by the constructor, its floor is Light, and of its models
  -- Premium is open to the role staff alone while the others are open to every role.
  pub default_catalog_access :
      (role : Str)
      → (default_catalog ≡ ok default_by_alias)
        × (floor amounts default_by_alias ≡ some light_entry)
        × (resolve amounts default_by_alias (codes "Light") role ≡ ok light_entry)
        × (resolve amounts default_by_alias (codes "Standard") role ≡ ok standard_entry)
        × (resolve amounts default_by_alias (codes "Fast") role ≡ ok fast_entry)
        × (resolve amounts default_by_alias (codes "Premium") role
            ≡ (if str_eq role (codes "staff") then ok premium_entry else err not_permitted))
  unfolding resolve floor get permits insert_by_rate str_eq
  default_catalog_access role = (default_catalog_lem, refl, refl, refl, refl, premium_gate role)
