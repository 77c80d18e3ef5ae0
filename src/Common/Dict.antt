-- ===== src/Common/Dict.antt =====
-- Maps with text keys, as the source's `Map` is: entries in the order in which their keys were
-- first set.
use mathlib.Core.Path.{◌≡◌, refl}
use mathlib.Core.Bool.{Bool, false, ◌||◌}
use mathlib.Core.List.{List, [], ◌∷◌, ◌++◌}
use mathlib.Core.Option.{Option, none, some}
use native.Mathlib.Omega.{arith}
use open_source_harness.Common.Tests.{if◌then◌else◌}
use open_source_harness.Common.Text.{Str, str_eq, str_eq_iff, str_eq_refl}

-- `set.has(key)` on the list of the keys.
unfoldable pub member : Str → List Str → Bool
member k [] = false
member k (j ∷ js) = str_eq j k || member k js

abbrev pub Distinct : List Str → Type 0
Distinct [] = Unit
Distinct (k ∷ ks) = (member k ks ≡ false) × Distinct ks

pub member-append :
    (k : Str) (xs ys : List Str) → member k (xs ++ ys) ≡ (member k xs || member k ys)
unfolding member
member-append k [] ys = refl
member-append k (x ∷ xs) ys = ground (arith, member-append k xs ys)

module _ {ℓ} {V : Type ℓ} where
  unfoldable pub get : Str → List (Str × V) → Option V
  get k [] = none
  get k ((j, v) ∷ d) = if str_eq j k then some v else get k d

  unfoldable pub put : Str → V → List (Str × V) → List (Str × V)
  put k v [] = (k, v) ∷ []
  put k v ((j, w) ∷ d) = if str_eq j k then (j, v) ∷ d else (j, w) ∷ put k v d

  unfoldable pub remove : Str → List (Str × V) → List (Str × V)
  remove k [] = []
  remove k ((j, w) ∷ d) = if str_eq j k then remove k d else (j, w) ∷ remove k d

  abbrev pub keys : List (Str × V) → List Str
  keys [] = []
  keys ((j, w) ∷ d) = j ∷ keys d

  abbrev pub values : List (Str × V) → List V
  values [] = []
  values ((j, w) ∷ d) = w ∷ values d

  pub get-put :
      (k j : Str) (v : V) (d : List (Str × V))
      → get j (put k v d) ≡ (if str_eq k j then some v else get j d)
  unfolding get put
  get-put k j v [] = refl
  get-put k j v ((i, w) ∷ d) =
      ground (arith, str_eq_iff k j, str_eq_iff i k, str_eq_iff i j, get-put k j v d)

  pub get-remove :
      (k j : Str) (d : List (Str × V)) → get j (remove k d) ≡ (if str_eq k j then none else get j d)
  unfolding get remove
  get-remove k j [] = ground arith
  get-remove k j ((i, w) ∷ d) =
      ground (arith, str_eq_iff k j, str_eq_iff i k, str_eq_iff i j, get-remove k j d)

  pub get-put_self : (k : Str) (v : V) (d : List (Str × V)) → get k (put k v d) ≡ some v
  get-put_self k v d = rw (get-put k k v d, str_eq_refl k)

  pub get-remove_self : (k : Str) (d : List (Str × V)) → get k (remove k d) ≡ none
  get-remove_self k d = rw (get-remove k k d, str_eq_refl k)

  pub member-keys-remove :
      (k j : Str) (d : List (Str × V))
      → member j (keys (remove k d)) ≡ (if str_eq k j then false else member j (keys d))
  unfolding member remove
  member-keys-remove k j [] = ground arith
  member-keys-remove k j ((i, w) ∷ d) =
      ground (arith, str_eq_iff k j, str_eq_iff i k, str_eq_iff i j, member-keys-remove k j d)

  pub member-keys-put :
      (k j : Str) (v : V) (d : List (Str × V))
      → member j (keys (put k v d)) ≡ (str_eq k j || member j (keys d))
  unfolding member put
  member-keys-put k j v [] = refl
  member-keys-put k j v ((i, w) ∷ d) =
      ground (arith, str_eq_iff k j, str_eq_iff i k, str_eq_iff i j, member-keys-put k j v d)

  pub remove-Distinct :
      (k : Str) (d : List (Str × V)) → Distinct (keys d) → Distinct (keys (remove k d))
  unfolding remove
  remove-Distinct k [] h = tt
  remove-Distinct k ((i, w) ∷ d) h =
      ground (arith, remove-Distinct k d (h.1), member-keys-remove k i d)

  pub put-Distinct :
      (k : Str) (v : V) (d : List (Str × V)) → Distinct (keys d) → Distinct (keys (put k v d))
  unfolding put member
  put-Distinct k v [] h = (refl, tt)
  put-Distinct k v ((i, w) ∷ d) h =
      ground
        (arith, put-Distinct k v d (h.1), member-keys-put k i v d, str_eq_iff i k, str_eq_iff k i)

  -- A key is present exactly when it has a value.
  pub get-eq-none : (k : Str) (d : List (Str × V)) → member k (keys d) ≡ false → get k d ≡ none
  unfolding member get
  get-eq-none k [] h = refl
  get-eq-none k ((i, w) ∷ d) h = ground (arith, get-eq-none k d)

  pub remove_absent : (k : Str) (d : List (Str × V)) → member k (keys d) ≡ false → remove k d ≡ d
  unfolding member remove
  remove_absent k [] h = refl
  remove_absent k ((i, w) ∷ d) h = ground (arith, remove_absent k d)
