-- ===== src/Common/Lists.antt =====
-- Lists measured and indexed by native numbers, Boolean filters, and predicates on all elements.
use Prim.Native.Nat.{ℕ, zero, suc, ◌+◌, ◌-◌, ◌≤◌, min}
use mathlib.Core.Path.{◌≡◌, refl, ap}
use mathlib.Core.Bool.{Bool, true, false, ◌||◌}
use mathlib.Core.List.{List, [], ◌∷◌, ◌++◌, map}
use mathlib.Core.Option.{Option, none, some}
use native.Mathlib.Omega.{arith}
use open_source_harness.Common.Tests.{if◌then◌else◌}

module _ {ℓ} {A : Type ℓ} where
  abbrev pub length : List A → ℕ
  length [] = 0
  length (x ∷ xs) = suc (length xs)

  abbrev pub get_elem? : List A → ℕ → Option A
  get_elem? [] i = none
  get_elem? (x ∷ xs) zero = some x
  get_elem? (x ∷ xs) (suc i) = get_elem? xs i

  abbrev pub take : ℕ → List A → List A
  take zero xs = []
  take (suc n) [] = []
  take (suc n) (x ∷ xs) = x ∷ take n xs

  abbrev pub drop : ℕ → List A → List A
  drop zero xs = xs
  drop (suc n) [] = []
  drop (suc n) (x ∷ xs) = drop n xs

  abbrev pub filter : (A → Bool) → List A → List A
  filter p [] = []
  filter p (x ∷ xs) = if p x then x ∷ filter p xs else filter p xs

  abbrev pub any : (A → Bool) → List A → Bool
  any p [] = false
  any p (x ∷ xs) = p x || any p xs

  -- The first element that passes.
  abbrev pub find : (A → Bool) → List A → Option A
  find p [] = none
  find p (x ∷ xs) = if p x then some x else find p xs

  pub length-append : (xs ys : List A) → length (xs ++ ys) ≡ length xs + length ys
  length-append [] ys = omega arith
  length-append (x ∷ xs) ys = omega (arith, length-append xs ys)

  pub length-take : (n : ℕ) (xs : List A) → length (take n xs) ≡ min n (length xs)
  length-take zero xs = omega arith
  length-take (suc n) [] = omega arith
  length-take (suc n) (x ∷ xs) = omega (arith, length-take n xs)

  pub length-drop : (n : ℕ) (xs : List A) → length (drop n xs) ≡ length xs - n
  length-drop zero xs = omega arith
  length-drop (suc n) [] = omega arith
  length-drop (suc n) (x ∷ xs) = omega (arith, length-drop n xs)

  pub take-append-drop : (n : ℕ) (xs : List A) → take n xs ++ drop n xs ≡ xs
  take-append-drop zero xs = refl
  take-append-drop (suc n) [] = refl
  take-append-drop (suc n) (x ∷ xs) = ap (◌∷◌ x) (take-append-drop n xs)

  pub length-filter-le : (p : A → Bool) (xs : List A) → length (filter p xs) ≤ length xs
  length-filter-le p [] = omega arith
  length-filter-le p (x ∷ xs) = ground (arith, length-filter-le p xs)

  pub filter-append :
      (p : A → Bool) (xs ys : List A) → filter p (xs ++ ys) ≡ filter p xs ++ filter p ys
  filter-append p [] ys = refl
  filter-append p (x ∷ xs) ys = ground (arith, filter-append p xs ys)

  -- A filter with a weaker test after a stronger one changes nothing.
  pub filter_idem : (p : A → Bool) (xs : List A) → filter p (filter p xs) ≡ filter p xs
  filter_idem p [] = refl
  filter_idem p (x ∷ xs) = ground (arith, filter_idem p xs)

module _ {ℓ κ} {A : Type ℓ} where
  abbrev pub All : (A → Type κ) → List A → Type κ
  All P [] = Unit
  All P (x ∷ xs) = P x × All P xs

  pub All-append : (P : A → Type κ) (xs ys : List A) → All P xs → All P ys → All P (xs ++ ys)
  All-append P [] ys h k = k
  All-append P (x ∷ xs) ys h k = (h.0, All-append P xs ys h.1 k)

  pub All-weaken : (P Q : A → Type κ) → ((x : A) → P x → Q x) → (xs : List A) → All P xs → All Q xs
  All-weaken P Q f [] h = tt
  All-weaken P Q f (x ∷ xs) h = (f x h.0, All-weaken P Q f xs h.1)

  pub All-take : (P : A → Type κ) (n : ℕ) (xs : List A) → All P xs → All P (take n xs)
  All-take P zero xs h = tt
  All-take P (suc n) [] h = tt
  All-take P (suc n) (x ∷ xs) h = (h.0, All-take P n xs h.1)

  pub All-drop : (P : A → Type κ) (n : ℕ) (xs : List A) → All P xs → All P (drop n xs)
  All-drop P zero xs h = h
  All-drop P (suc n) [] h = tt
  All-drop P (suc n) (x ∷ xs) h = All-drop P n xs h.1

-- What a Boolean filter leaves satisfies its test, and nothing that satisfies it is lost.
module _ {ℓ} {A : Type ℓ} (p : A → Bool) where
  pub All-filter : (xs : List A) → All (λ x. p x ≡ true) (filter p xs)
  All-filter [] = tt
  All-filter (x ∷ xs) = ground (arith, All-filter xs)

  pub filter-eq_of_All : (xs : List A) → All (λ x. p x ≡ true) xs → filter p xs ≡ xs
  filter-eq_of_All [] h = refl
  filter-eq_of_All (x ∷ xs) h = ground (arith, filter-eq_of_All xs h.1)

  pub filter-eq-nil_of_All : (xs : List A) → All (λ x. p x ≡ false) xs → filter p xs ≡ []
  filter-eq-nil_of_All [] h = refl
  filter-eq-nil_of_All (x ∷ xs) h = ground (arith, filter-eq-nil_of_All xs h.1)

module _ {ℓ κ} {A : Type ℓ} {B : Type κ} where
  pub length-map : (f : A → B) (xs : List A) → length (map f xs) ≡ length xs
  length-map f [] = refl
  length-map f (x ∷ xs) = ap suc (length-map f xs)

-- Two lists of one length, related element by element.
module _ {ℓ} {A : Type ℓ} where
  abbrev pub All₂ : (A → A → Type 0) → List A → List A → Type 0
  All₂ R [] [] = Unit
  All₂ R (x ∷ xs) (y ∷ ys) = R x y × All₂ R xs ys
  All₂ R [] (y ∷ ys) = ⊥
  All₂ R (x ∷ xs) [] = ⊥

  pub All₂-refl : (R : A → A → Type 0) → ((x : A) → R x x) → (xs : List A) → All₂ R xs xs
  All₂-refl R h [] = tt
  All₂-refl R h (x ∷ xs) = (h x, All₂-refl R h xs)

  pub All₂-length : (R : A → A → Type 0) (xs ys : List A) → All₂ R xs ys → length ys ≡ length xs
  All₂-length R [] [] h = refl
  All₂-length R (x ∷ xs) (y ∷ ys) h = ap suc (All₂-length R xs ys h.1)
  All₂-length R [] (y ∷ ys) h = absurd h
  All₂-length R (x ∷ xs) [] h = absurd h

  -- A test that related elements answer alike passes on some element of both lists or of neither.
  pub any-All₂ :
      (R : A → A → Type 0) (p : A → Bool)
      → ((x y : A) → R x y → p y ≡ p x)
      → (xs ys : List A) → All₂ R xs ys
      → any p ys ≡ any p xs
  any-All₂ R p same [] [] h = refl
  any-All₂ R p same (x ∷ xs) (y ∷ ys) h = rw (same x y h.0, any-All₂ R p same xs ys h.1)
  any-All₂ R p same [] (y ∷ ys) h = absurd h
  any-All₂ R p same (x ∷ xs) [] h = absurd h

module _ {ℓ} {A : Type ℓ} where
  pub drop-eq-nil : (n : ℕ) (xs : List A) → length xs ≤ n → drop n xs ≡ []
  drop-eq-nil zero [] h = refl
  drop-eq-nil zero (x ∷ xs) h = absurd (omega arith)
  drop-eq-nil (suc n) [] h = refl
  drop-eq-nil (suc n) (x ∷ xs) h = drop-eq-nil n xs (omega arith)

  -- An element-by-element relation carries a predicate over.
  pub All-of_All₂ {κ} :
      (R : A → A → Type 0) (P : A → Type κ)
      → ((x y : A) → R x y → P x → P y)
      → (xs ys : List A) → All₂ R xs ys
      → All P xs
      → All P ys
  All-of_All₂ R P carry [] [] h k = tt
  All-of_All₂ R P carry (x ∷ xs) (y ∷ ys) h k =
      (carry x y h.0 k.0, All-of_All₂ R P carry xs ys h.1 k.1)
  All-of_All₂ R P carry [] (y ∷ ys) h k = absurd h
  All-of_All₂ R P carry (x ∷ xs) [] h k = absurd h
