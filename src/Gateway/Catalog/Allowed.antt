-- ===== src/Gateway/Catalog/Allowed.antt =====
-- packages/gateway-model/src/catalog.ts, resolve: which role may use which alias.
use open_source_harness.Common.{
  Bool, not, ◌∙◌, ◌≡◌, ◌↔◌, ◌⊎◌, refl, sym, ap, inl, inr, true, false, some, List, [], ◌∷◌, Str,
  Bool-cases, Option-cases, if◌then◌else◌,
}
use open_source_harness.Common.Dict.{get, member}
use open_source_harness.Protocol.Cost.{Amounts}
use open_source_harness.Gateway.Catalog.{
  ModelEntry, ModelCatalog, ok, err, not_permitted, permits, get_entry, resolve,
}

module _ (amounts : Amounts) where
  -- The entry is open to everyone, is not gated at all, or is enabled for the role.
  abbrev pub MayUse : ModelEntry amounts → Str → Type 0
  MayUse e role =
      (e.always_available ≡ true)
      ⊎ (e.enabled_for_roles ≡ [])
      ⊎ (member role e.enabled_for_roles ≡ true)

  permits-MayUse :
      (e : ModelEntry amounts) (role : Str) → (permits amounts e role ≡ true) ↔ MayUse e role
  unfolding permits
  permits-MayUse e role = usable e.always_available e.enabled_for_roles
    where
      usable :
          (open_ : Bool) (roles : List Str)
          → ((if open_
                then true
                else if not (elim roles [ [] ↦ false | r ∷ rs ↦ true ])
                then true
                else member role roles)
              ≡ true)
            ↔ ((open_ ≡ true) ⊎ (roles ≡ []) ⊎ (member role roles ≡ true))
      usable true roles = (λ h. inl refl, λ h. refl)
      usable false [] = (λ h. inr (inl refl), λ h. refl)
      usable false (r ∷ rs) =
          (λ h. inr (inr h), λ h. elim h [ inl a ↦ cc a | inr (inl b) ↦ cc b | inr (inr c) ↦ c ])

  pub resolve-iff-MayUse :
      (catalog : ModelCatalog amounts) (alias role : Str) (e : ModelEntry amounts)
      → (resolve amounts catalog alias role ≡ ok e) ↔ ((get alias catalog ≡ some e) × MayUse e role)
  unfolding resolve get_entry
  resolve-iff-MayUse catalog alias role e = elim (Option-cases (get alias catalog)) [
    | inl missing ↦ (λ h. cc (rw (resolve, get_entry, missing) at h), λ h. cc (sym missing ∙ h.0))
    | inr (f, found) ↦ (
      λ h.
          let (same, allowed) = permitted f (rw (resolve, get_entry, found) at h) in
          (
            found ∙ ap some same,
            (permits-MayUse e role).0 (ap (λ x. permits amounts x role) (sym same) ∙ allowed),
          ),
      λ h.
          let allowed = (permits-MayUse e role).1 (h.1) in
          rw (resolve, get_entry, h.0, allowed) refl,
    )
  ]
    where
      taken : (f : ModelEntry amounts) → ok f ≡ ok e → f ≡ e
      taken f h = cc

      permitted :
          (f : ModelEntry amounts)
          → (if permits amounts f role then ok f else err not_permitted) ≡ ok e
          → (f ≡ e) × (permits amounts f role ≡ true)
      permitted f h = elim (Bool-cases (permits amounts f role)) [
        | inl allowed ↦ (taken f (rw (allowed) at h), allowed)
        | inr denied ↦ cc (rw (denied) at h)
      ]
