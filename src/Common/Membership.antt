-- ===== src/Common/Membership.antt =====
-- Membership in a list.
use mathlib.Core.Path.{◌≡◌, ap, subst, sym, ◌∙◌}
use mathlib.Core.Logic.{◌⊎◌, inl, inr}
use mathlib.Core.Bool.{Bool, true}
use mathlib.Core.List.{List, [], ◌∷◌, ◌++◌, map}
use open_source_harness.Common.Tests.{Bool-cases}
use open_source_harness.Common.Lists.{filter, All}

module _ {ℓ} {A : Type ℓ} where
  pub data In (a : A) : List A → Type ℓ where
    here : {x : A} {xs : List A} → a ≡ x → In a (x ∷ xs)
    there : {x : A} {xs : List A} → In a xs → In a (x ∷ xs)

  pub In-nil : {a : A} → In a [] → ⊥
  In-nil i = elim i [ ]

  pub In-cons_inv : {a x : A} {xs : List A} → In a (x ∷ xs) → (a ≡ x) ⊎ In a xs
  In-cons_inv (here e) = inl e
  In-cons_inv (there i) = inr i

  pub In-filter : (p : A → Bool) (a : A) (xs : List A) → In a xs → p a ≡ true → In a (filter p xs)
  In-filter p a [] i h = absurd (In-nil i)
  In-filter p a (x ∷ xs) (here e) h = rw (ap p (sym e) ∙ h) (here e)
  In-filter p a (x ∷ xs) (there i) h = elim (Bool-cases (p x)) [
    | inl keep ↦ rw keep (there (In-filter p a xs i h))
    | inr drop_ ↦ rw drop_ (In-filter p a xs i h)
  ]

  pub In-of_filter :
      (p : A → Bool) (a : A) (xs : List A) → In a (filter p xs) → In a xs × (p a ≡ true)
  In-of_filter p a [] i = absurd (In-nil i)
  In-of_filter p a (x ∷ xs) i = elim (Bool-cases (p x)) [
    | inl keep ↦ elim (In-cons_inv (rw keep at i)) [
      | inl e ↦ (here e, ap p e ∙ keep)
      | inr j ↦ let (k, h) = In-of_filter p a xs j in (there k, h)
    ]
    | inr drop_ ↦ let (j, h) = In-of_filter p a xs (rw drop_ at i) in (there j, h)
  ]

  pub In-append_left : (a : A) (xs ys : List A) → In a xs → In a (xs ++ ys)
  In-append_left a [] ys i = absurd (In-nil i)
  In-append_left a (x ∷ xs) ys (here same) = here same
  In-append_left a (x ∷ xs) ys (there i) = there (In-append_left a xs ys i)

  pub In-append_right : (a : A) (xs ys : List A) → In a ys → In a (xs ++ ys)
  In-append_right a [] ys i = i
  In-append_right a (x ∷ xs) ys i = there (In-append_right a xs ys i)

module _ {ℓ κ} {A : Type ℓ} {B : Type κ} where
  pub In-map : (f : A → B) (a : A) (xs : List A) → In a xs → In (f a) (map f xs)
  In-map f a [] i = absurd (In-nil i)
  In-map f a (x ∷ xs) (here same) = here (ap f same)
  In-map f a (x ∷ xs) (there i) = there (In-map f a xs i)

-- What holds of all elements holds of a member.
pub All-In {ℓ κ} : {A : Type ℓ} (P : A → Type κ) {a : A} (xs : List A) → All P xs → In a xs → P a
All-In P [] h i = absurd (In-nil i)
All-In P (x ∷ xs) (h, hs) (here same) = subst P (sym same) h
All-In P (x ∷ xs) (h, hs) (there i) = All-In P xs hs i
