-- ===== src/Gateway/Catalog/Access.antt =====
-- packages/gateway-model/src/catalog.ts: what a role is offered, and what it can use.
use open_source_harness.Common.{
  ◌≡◌, refl, sym, ap, ◌∙◌, ◌⊎◌, ◌↔◌, inl, inr, true, none, some, List, [], ◌∷◌, Str, str_eq,
  str_eq_iff, filter, In, In-nil, here, there, In-filter, In-of_filter, All, arith, Bool-cases,
  Option-cases, if◌then◌else◌,
}
use open_source_harness.Common.Dict.{get, member, keys, values, Distinct}
use open_source_harness.Protocol.Cost.{Amounts}
use open_source_harness.Gateway.Catalog.{
  ModelEntry, ModelCatalog, ok, err, is_floor, new_catalog, permits, list_for_role, get_entry,
  resolve, insert_by_rate, sort_by_rate, floor, not_permitted,
}
use open_source_harness.Gateway.Catalog.Build.{Keyed, new_catalog-IsCatalog}

module _ (amounts : Amounts) where
  In-of_get :
      (alias : Str) (c : ModelCatalog amounts) (e : ModelEntry amounts)
      → Keyed amounts c
      → get alias c ≡ some e
      → In e (values c) × (e.alias ≡ alias)
  unfolding get
  In-of_get alias [] e k h = cc
  In-of_get alias ((j, w) ∷ c) e k h = elim (Bool-cases (str_eq j alias)) [
    | inl same ↦
        let found : w ≡ e = ground arith in
        (
          here (sym found),
          ground (arith, str_eq_iff j alias, ap (λ (x : ModelEntry amounts). x.alias) found),
        )
    | inr other ↦ let (i, a) = In-of_get alias c e k.1 (ground arith) in (there i, a)
  ]

  member_of_In :
      (c : ModelCatalog amounts) (e : ModelEntry amounts)
      → Keyed amounts c
      → In e (values c)
      → member e.alias (keys c) ≡ true
  unfolding member
  member_of_In [] e k i = absurd (In-nil i)
  member_of_In ((j, w) ∷ c) e k (here same) =
      ground (arith, ap (λ (x : ModelEntry amounts). x.alias) same, str_eq_iff j e.alias)
  member_of_In ((j, w) ∷ c) e k (there i) = ground (arith, member_of_In c e k.1 i)

  get_of_In :
      (c : ModelCatalog amounts) (e : ModelEntry amounts)
      → Keyed amounts c
      → Distinct (keys c)
      → In e (values c)
      → get e.alias c ≡ some e
  unfolding get
  get_of_In [] e k u i = absurd (In-nil i)
  get_of_In ((j, w) ∷ c) e k u (here same) =
      ground (arith, ap (λ (x : ModelEntry amounts). x.alias) same, str_eq_iff j e.alias)
  get_of_In ((j, w) ∷ c) e k u (there i) =
      ground (arith, get_of_In c e k.1 u.1 i, member_of_In c e k.1 i, str_eq_iff j e.alias)

  resolve_sound :
      (c : ModelCatalog amounts) (alias role : Str) (e : ModelEntry amounts)
      → resolve amounts c alias role ≡ ok e
      → (get alias c ≡ some e) × (permits amounts e role ≡ true)
  unfolding resolve
  resolve_sound c alias role e h = elim (Option-cases (get alias c)) [
    | inl unknown ↦ absurd (refused unknown)
    | inr (f, found) ↦ allowed f found (rw (found, get_entry) at h)
  ]
    where
      refused : get alias c ≡ none → ⊥
      refused unknown = ground arith

      allowed :
          (f : ModelEntry amounts)
          → get alias c ≡ some f
          → (if permits amounts f role then ok f else err not_permitted) ≡ ok e
          → (get alias c ≡ some e) × (permits amounts e role ≡ true)
      allowed f found k = elim (Bool-cases (permits amounts f role)) [
        | inl may ↦
            let same : f ≡ e = ground arith in
            (found ∙ ap some same, ap (λ x. permits amounts x role) (sym same) ∙ may)
        | inr barred ↦ absurd (ground arith)
      ]

  -- In a catalog that was built, what a role is offered is exactly what it can use under its alias.
  pub listed_iff_resolves :
      (entries : List (ModelEntry amounts)) (c : ModelCatalog amounts) (e : ModelEntry amounts)
      (role : Str)
      → new_catalog amounts entries ≡ ok c
      → In e (list_for_role amounts c role) ↔ (resolve amounts c e.alias role ≡ ok e)
  unfolding list_for_role resolve
  listed_iff_resolves entries c e role built =
      let v = new_catalog-IsCatalog amounts entries c built in
      (
        λ i.
            let (j, may) = In-of_filter (λ x. permits amounts x role) e (values c) i in
            let found = get_of_In c e v.keyed v.once j in rw (found, get_entry, may) refl,
        λ h.
            let (found, may) = resolve_sound c e.alias role e h in
            In-filter (λ x. permits amounts x role) e (values c)
              (In-of_get e.alias c e v.keyed found).0 may,
      )

  -- `e` is one of the entries, and none has a lower input rate.
  abbrev pub Cheapest : ModelEntry amounts → List (ModelEntry amounts) → Type 0
  Cheapest e es =
      In e es × All (λ x. amounts.leb e.rates.input_per_mtok x.rates.input_per_mtok ≡ true) es

  abbrev StartsCheapest : List (ModelEntry amounts) → List (ModelEntry amounts) → Type 0
  StartsCheapest es s =
      ((es ≡ []) × (s ≡ []))
      ⊎ ((e : ModelEntry amounts) × (rest : List (ModelEntry amounts)) × (s ≡ e ∷ rest)
          × Cheapest e es)

  All-weaken :
      (e f : ModelEntry amounts) (es : List (ModelEntry amounts))
      → amounts.leb e.rates.input_per_mtok f.rates.input_per_mtok ≡ true
      → All (λ x. amounts.leb f.rates.input_per_mtok x.rates.input_per_mtok ≡ true) es
      → All (λ x. amounts.leb e.rates.input_per_mtok x.rates.input_per_mtok ≡ true) es
  All-weaken e f [] h a = tt
  All-weaken e f (x ∷ xs) h a = (amounts.leb_trans _ _ _ h a.0, All-weaken e f xs h a.1)

  insert-StartsCheapest :
      (e : ModelEntry amounts) (es s : List (ModelEntry amounts))
      → StartsCheapest es s
      → StartsCheapest (e ∷ es) (insert_by_rate amounts e s)
  unfolding insert_by_rate
  insert-StartsCheapest e es s (inl (none_, empty)) =
      rw (empty, insert_by_rate) (inr (e, [], refl, (here refl, (amounts.leb_refl _, rw none_ tt))))
  insert-StartsCheapest e es s (inr (f, rest, starts, (i, a))) =
      elim (Bool-cases (amounts.leb e.rates.input_per_mtok f.rates.input_per_mtok)) [
        | inl cheaper ↦
            rw (starts, insert_by_rate, cheaper)
              (inr
                (e, f ∷ rest, refl, (here refl, (amounts.leb_refl _, All-weaken e f es cheaper a))))
        | inr dearer ↦
            rw (starts, insert_by_rate, dearer)
              (inr (f, _, refl, (there i, (amounts.leb_total _ _ dearer, a))))
      ]

  sort-StartsCheapest :
      (es : List (ModelEntry amounts)) → StartsCheapest es (sort_by_rate amounts es)
  unfolding sort_by_rate
  sort-StartsCheapest [] = inl (refl, refl)
  sort-StartsCheapest (e ∷ es) =
      insert-StartsCheapest e es (sort_by_rate amounts es) (sort-StartsCheapest es)

  floor_permitted :
      (e : ModelEntry amounts) (role : Str)
      → is_floor amounts e ≡ true
      → permits amounts e role ≡ true
  unfolding permits
  floor_permitted e role h = rw h refl

  -- No configuration leaves a role without a model: in a catalog that was built the floor exists,
  -- it is always available and has the lowest input rate of the models that are, and every role is
  -- offered it and can use it.
  pub floor_serves_everyone :
      (entries : List (ModelEntry amounts)) (c : ModelCatalog amounts) (role : Str)
      → new_catalog amounts entries ≡ ok c
      → (f : ModelEntry amounts) × (floor amounts c ≡ some f)
        × Cheapest f (filter (is_floor amounts) (values c))
        × In f (list_for_role amounts c role)
        × (resolve amounts c f.alias role ≡ ok f)
  unfolding floor
  floor_serves_everyone entries c role built =
      let v = new_catalog-IsCatalog amounts entries c built in
      let present =
        In-filter (is_floor amounts) v.floor_entry (values c) v.floor_listed v.floor_marked in
      serves present (sort-StartsCheapest (filter (is_floor amounts) (values c)))
    where
      serves :
          {e : ModelEntry amounts}
          → In e (filter (is_floor amounts) (values c))
          → StartsCheapest
              (filter (is_floor amounts) (values c))
              (sort_by_rate amounts (filter (is_floor amounts) (values c)))
          → (f : ModelEntry amounts) × (floor amounts c ≡ some f)
            × Cheapest f (filter (is_floor amounts) (values c))
            × In f (list_for_role amounts c role)
            × (resolve amounts c f.alias role ≡ ok f)
      serves i (inl (nothing, _)) = absurd (In-nil (rw nothing at i))
      serves i (inr (f, rest, starts, cheapest)) =
          let (listed, marked) = In-of_filter (is_floor amounts) f (values c) cheapest.0 in
          let offered : In f (list_for_role amounts c role) =
            unfold list_for_role in
            In-filter (λ x. permits amounts x role) f (values c) listed
              (floor_permitted f role marked) in
          (
            f,
            rw starts refl,
            cheapest,
            offered,
            (listed_iff_resolves entries c f role built).0 offered,
          )
