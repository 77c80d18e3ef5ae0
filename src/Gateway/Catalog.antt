-- ===== src/Gateway/Catalog.antt =====
-- packages/gateway-model/src/catalog.ts: the models of the organisation and who may use them.
-- Entries are taken as the schema leaves them. The text of an error is left out.
pub mod Build
pub mod Access
pub mod Allowed
pub mod Default
pub mod Tests
use open_source_harness.Common.{
  ◌≡◌, refl, ℕ, Bool, true, false, not, ◌||◌, Option, none, some, List, [], ◌∷◌, Str, str_eq,
  filter, find, length, ltb, if◌then◌else◌,
}
use open_source_harness.Common.Dict.{get, put, member, keys, values}
use open_source_harness.Protocol.Cost.{Amounts, ModelRates}

pub data Tier : Type 0 where
  light standard premium : Tier

pub data CatalogError : Type 0 where
  no_floor floor_gated unknown_alias not_permitted duplicate_alias : CatalogError

pub data Result {ℓ} (A : Type ℓ) : Type ℓ where
  ok : A → Result A
  err : CatalogError → Result A

infixl 5 ◌>>=◌
abbrev pub ◌>>=◌ {ℓ κ} : {A : Type ℓ} {B : Type κ} → Result A → (A → Result B) → Result B
ok a >>= k = k a
err e >>= k = err e

pub >>=-eq-ok {ℓ κ} :
    {A : Type ℓ} {B : Type κ} (m : Result A) (k : A → Result B) {b : B}
    → (m >>= k) ≡ ok b
    → (a : A) × (m ≡ ok a) × (k a ≡ ok b)
>>=-eq-ok (ok a) k h = (a, refl, h)
>>=-eq-ok (err e) k h = cc

module _ (amounts : Amounts) where
  pub record ModelEntry : Type 0 where
    pub alias : Str
    pub tier : Tier
    pub provider : Str
    pub upstream_model : Str
    pub context_window : ℕ
    pub rates : ModelRates amounts
    pub enabled_for_roles : List Str
    pub always_available : Bool
    pub supports_reasoning_effort : Bool

  -- `byAlias`
  abbrev pub ModelCatalog : Type 0
  ModelCatalog = List (Str × ModelEntry)

  abbrev pub is_floor : ModelEntry → Bool
  is_floor e = e.always_available

  -- `f.enabledForRoles.length > 0`
  abbrev pub is_gated : ModelEntry → Bool
  is_gated e = elim e.enabled_for_roles [ [] ↦ false | r ∷ rs ↦ true ]

  -- the loop of the constructor
  unfoldable pub add_entries : ModelCatalog → List ModelEntry → Result ModelCatalog
  add_entries by_alias [] = ok by_alias
  add_entries by_alias (entry ∷ entries) =
      let rest = add_entries (put entry.alias entry by_alias) entries in
      if member entry.alias (keys by_alias) then err duplicate_alias else rest

  -- the two checks on the list of the floors
  unfoldable pub check_found : ModelCatalog → List ModelEntry → Result ModelCatalog
  check_found by_alias [] = err no_floor
  check_found by_alias (f ∷ fs) = elim (find is_gated (f ∷ fs)) [
    | none ↦ ok by_alias
    | some gated ↦ err floor_gated
  ]

  unfoldable pub check_floors : ModelCatalog → Result ModelCatalog
  unfolding check_found
  check_floors by_alias = check_found by_alias (filter is_floor (values by_alias))

  -- the constructor
  unfoldable pub new_catalog : List ModelEntry → Result ModelCatalog
  unfolding add_entries check_floors
  new_catalog entries = do by_alias ← add_entries [] entries; check_floors by_alias

  unfoldable pub permits : ModelEntry → Str → Bool
  permits entry role =
      if entry.always_available
      then true
      else if not (is_gated entry)
      then true
      else member role entry.enabled_for_roles

  abbrev pub list : ModelCatalog → List ModelEntry
  list by_alias = values by_alias

  unfoldable pub list_for_role : ModelCatalog → Str → List ModelEntry
  list_for_role by_alias role = filter (λ e. permits e role) (list by_alias)

  unfoldable pub get_entry : ModelCatalog → Str → Result ModelEntry
  get_entry by_alias alias = elim (get alias by_alias) [
    | none ↦ err unknown_alias
    | some entry ↦ ok entry
  ]

  unfoldable pub resolve : ModelCatalog → Str → Str → Result ModelEntry
  unfolding get_entry
  resolve by_alias alias role = do
    entry ← get_entry by_alias alias
    if permits entry role then ok entry else err not_permitted

  -- `sort((a, b) => a.rates.inputPerMtok - b.rates.inputPerMtok)`, which is stable
  unfoldable pub insert_by_rate : ModelEntry → List ModelEntry → List ModelEntry
  insert_by_rate e [] = e ∷ []
  insert_by_rate e (x ∷ xs) =
      if amounts.leb e.rates.input_per_mtok x.rates.input_per_mtok
      then e ∷ x ∷ xs
      else x ∷ insert_by_rate e xs

  unfoldable pub sort_by_rate : List ModelEntry → List ModelEntry
  sort_by_rate [] = []
  sort_by_rate (e ∷ es) = insert_by_rate e (sort_by_rate es)

  abbrev pub first : List ModelEntry → Option ModelEntry
  first [] = none
  first (e ∷ es) = some e

  -- `none` is the `undefined` of an empty list, which the `!` of the source hides.
  unfoldable pub floor : ModelCatalog → Option ModelEntry
  unfolding sort_by_rate
  floor by_alias = first (sort_by_rate (filter is_floor (list by_alias)))

  unfoldable pub rates_for : ModelCatalog → Str → Result (ModelRates amounts)
  unfolding get_entry
  rates_for by_alias alias = do entry ← get_entry by_alias alias; ok entry.rates
