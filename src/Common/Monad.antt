-- ===== src/Common/Monad.antt =====
-- Chains of fallible steps: `none` is the exception that leaves the chain.
use mathlib.Core.Path.{◌≡◌, refl, subst}
use mathlib.Core.Option.{Option, none, some, some-injective}

infixl 5 ◌>>=◌
abbrev pub ◌>>=◌ {ℓ κ} : {A : Type ℓ} {B : Type κ} → Option A → (A → Option B) → Option B
none >>= k = none
some a >>= k = k a

pub >>=-eq-some {ℓ κ} :
    {A : Type ℓ} {B : Type κ} (m : Option A) (k : A → Option B) {b : B}
    → (m >>= k) ≡ some b
    → (a : A) × (m ≡ some a) × (k a ≡ some b)
>>=-eq-some none k h = cc
>>=-eq-some (some a) k h = (a, refl, h)

-- A postcondition: every result that a chain returns satisfies `P`.
pub record Ensures {ℓ} {A : Type ℓ} (P : A → Type 0) (o : Option A) : Type ℓ where
  pub holds : (a : A) → o ≡ some a → P a

module _ {ℓ} {A : Type ℓ} (P : A → Type 0) where
  pub Ensures-some : (a : A) → P a → Ensures P (some a)
  Ensures-some a h = record { holds = λ b e. subst P (some-injective a b e) h }

  pub Ensures-none : Ensures P none
  Ensures-none = record { holds = λ b e. cc }

module _ {ℓ κ} {A : Type ℓ} {B : Type κ} (P : A → Type 0) (Q : B → Type 0) where
  pub Ensures-bind :
      (m : Option A) (k : A → Option B)
      → Ensures P m
      → ((a : A) → P a → Ensures Q (k a))
      → Ensures Q (m >>= k)
  Ensures-bind none k h after = Ensures-none Q
  Ensures-bind (some a) k h after = after a (h.holds a refl)

-- A chain returns if each of its steps does.
abbrev pub Returns {ℓ} : {A : Type ℓ} → Option A → Type ℓ
Returns {A} o = (a : A) × (o ≡ some a)

pub Returns-bind {ℓ κ} :
    {A : Type ℓ} {B : Type κ} (m : Option A) (k : A → Option B)
    → Returns m
    → ((a : A) → Returns (k a))
    → Returns (m >>= k)
Returns-bind none k h after = cc (h.1)
Returns-bind (some a) k h after = after a
