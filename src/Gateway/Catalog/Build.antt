-- ===== src/Gateway/Catalog/Build.antt =====
-- packages/gateway-model/src/catalog.ts, the constructor: what every catalog that is built satisfies.
use open_source_harness.Common.{
  ◌≡◌, refl, ap, inl, inr, Bool, true, false, none, List, [], ◌∷◌, str_eq_iff, filter, find, In,
  In-nil, here, there, In-filter, In-of_filter, arith, Bool-cases,
}
use open_source_harness.Common.Dict.{put, member, keys, values, Distinct, put-Distinct}
use open_source_harness.Protocol.Cost.{Amounts}
use open_source_harness.Gateway.Catalog.{
  ModelEntry, ModelCatalog, ok, is_floor, is_gated, add_entries, check_found, check_floors,
  >>=-eq-ok, new_catalog,
}

module _ (amounts : Amounts) where
  -- Every entry stands under its alias.
  abbrev pub Keyed : ModelCatalog amounts → Type 0
  Keyed [] = Unit
  Keyed ((k, e) ∷ c) = (e.alias ≡ k) × Keyed c

  pub record IsCatalog (c : ModelCatalog amounts) : Type 0 where
    pub keyed : Keyed c
    pub once : Distinct (keys c)
    pub floor_entry : ModelEntry amounts
    pub floor_listed : In floor_entry (values c)
    pub floor_marked : is_floor amounts floor_entry ≡ true
    pub floors_open :
        (e : ModelEntry amounts)
        → In e (values c)
        → is_floor amounts e ≡ true
        → is_gated amounts e ≡ false

  Keyed-put :
      (e : ModelEntry amounts) (c : ModelCatalog amounts) → Keyed c → Keyed (put e.alias e c)
  unfolding put
  Keyed-put e [] k = (refl, tt)
  Keyed-put e ((j, w) ∷ c) k = ground (arith, Keyed-put e c (k.1), str_eq_iff j e.alias)

  add_entries_keeps :
      (c : ModelCatalog amounts) (es : List (ModelEntry amounts)) (d : ModelCatalog amounts)
      → Keyed c
      → Distinct (keys c)
      → add_entries amounts c es ≡ ok d
      → Keyed d × Distinct (keys d)
  unfolding add_entries
  add_entries_keeps c [] d k u h = let e : c ≡ d = ground arith in rw (← e) (k, u)
  add_entries_keeps c (e ∷ es) d k u h = elim (Bool-cases (member e.alias (keys c))) [
    | inl seen ↦ absurd (ground arith)
    | inr new ↦
        add_entries_keeps (put e.alias e c) es d (Keyed-put e c k) (put-Distinct e.alias e c u)
          (rw new at h)
  ]

  find-none :
      (p : ModelEntry amounts → Bool) (e : ModelEntry amounts) (es : List (ModelEntry amounts))
      → find p es ≡ none
      → In e es
      → p e ≡ false
  find-none p e [] h i = absurd (In-nil i)
  find-none p e (x ∷ xs) h (here same) = ground (arith, ap p same)
  find-none p e (x ∷ xs) h (there i) = find-none p e xs (ground arith) i

  check_found_sound :
      (c d : ModelCatalog amounts) (fs : List (ModelEntry amounts))
      → check_found amounts c fs ≡ ok d
      → (c ≡ d) × (f : ModelEntry amounts) × In f fs × (find (is_gated amounts) fs ≡ none)
  unfolding check_found
  check_found_sound c d [] h = cc
  check_found_sound c d (f ∷ fs) h = (ground arith, f, here refl, ground arith)

  checked-IsCatalog :
      (c d : ModelCatalog amounts)
      → Keyed c
      → Distinct (keys c)
      → check_floors amounts c ≡ ok d
      → IsCatalog d
  unfolding check_floors
  checked-IsCatalog c d k u h =
      let (same, f, listed, ungated) =
        check_found_sound c d (filter (is_floor amounts) (values c)) h in
      let (i, marked) = In-of_filter (is_floor amounts) f (values c) listed in
      rw (← same) (record {
        keyed = k;
        once = u;
        floor_entry = f;
        floor_listed = i;
        floor_marked = marked;
        floors_open = λ e j m.
            find-none (is_gated amounts) e (filter (is_floor amounts) (values c)) ungated
              (In-filter (is_floor amounts) e (values c) j m);
      })

  -- A catalog that is built has every entry under its alias, no alias twice, at least one
  -- always-available model, and no always-available model that is gated by role.
  pub new_catalog-IsCatalog :
      (entries : List (ModelEntry amounts)) (c : ModelCatalog amounts)
      → new_catalog amounts entries ≡ ok c
      → IsCatalog c
  unfolding new_catalog
  new_catalog-IsCatalog entries c h =
      let (d, added, checked) = >>=-eq-ok (add_entries amounts [] entries) _ h in
      let (k, u) = add_entries_keeps [] entries d tt tt added in checked-IsCatalog d c k u checked
