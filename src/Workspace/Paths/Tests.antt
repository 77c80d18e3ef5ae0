-- ===== src/Workspace/Paths/Tests.antt =====
-- packages/workspace/src/paths.ts: a posix platform on which a path is kept as it is, and instances of
-- the theorems.
use mathlib.Core.Path.{subst}
use mathlib.Core.Option.{some-injective}
use open_source_harness.Common.{
  sym, ap, inl, inr, Bool-cases, ℕ, ◌≡◌, ◌<◌, ◌≤◌, ◌+◌, ◌==◌, ◌&&◌, Bool, refl, ◌⊎◌, ◌↔◌, true,
  false, Option, none, some, [], ◌∷◌, ◌++◌, Str, codes, str_eq, starts_with, ends_with, includes,
  length, arith, if◌then◌else◌,
}
use open_source_harness.Workspace.Paths.{
  PlatformPath, confined, path_escape, strip_leading, is_inside, resolve_in_root,
  assert_real_path_in_root,
}
use open_source_harness.Workspace.Paths.Inside.{IsRelative, IsWithin, resolve_in_root-confines}
use open_source_harness.Workspace.Paths.Ancestors.{
  Climbs, Nearest, assert_real_path_in_root-answers,
}

-- The text before the last slash that another character follows, `none` where there is none.
abbrev has_name : Str → Bool
has_name [] = false
has_name (c ∷ s) = if c == b'/' then has_name s else true

abbrev up_in : ℕ → Str → Option Str → Option Str
up_in c s (some before) = some (c ∷ before)
up_in c s none = if c == b'/' && has_name s then some [] else none

abbrev before_last : Str → Option Str
before_last [] = none
before_last (c ∷ s) = up_in c s (before_last s)

-- `path.posix.dirname`
abbrev parent_of : ℕ → Option Str → Str
parent_of c none = if c == b'/' then codes "/" else codes "."
parent_of c (some []) = if c == b'/' then codes "//" else c ∷ []
parent_of c (some (d ∷ before)) = c ∷ d ∷ before

abbrev posix_dirname : Str → Str
posix_dirname [] = codes "."
posix_dirname (c ∷ s) = parent_of c (before_last s)

-- Paths that are already absolute and normal.
abbrev posix : PlatformPath
posix = record {
  absolute = λ p. p;
  resolve = λ base p. base ++ codes "/" ++ p;
  dirname = posix_dirname;
  sep = codes "/";
}

abbrev work_only : Str → Option Str
work_only p = if str_eq p (codes "/work") then some p else none

sealed : Unit {0}
unfolding resolve_in_root is_inside strip_leading str_eq starts_with ends_with includes
sealed = tt

verdicts :
    (resolve_in_root posix (codes "/work") (codes "//a.ts") ≡ confined (codes "/work/a.ts"))
    × (is_inside posix (codes "/work") (codes "/work-other/a.ts") ≡ false)
    × (resolve_in_root posix (codes "/work") (0 ∷ []) ≡ path_escape)
unfolding sealed
verdicts = (refl, refl, refl)

resolve_in_root-confines_example :
    (resolve_in_root posix (codes "/work") (codes "//a.ts") ≡ confined (codes "/work/a.ts")) ↔ (
      (includes 0 (codes "//a.ts") ≡ false)
      × ((rel : Str) × IsRelative (codes "//a.ts") rel
          × (codes "/work/a.ts" ≡ codes "/work" ++ codes "/" ++ rel))
      × IsWithin posix (codes "/work") (codes "/work/a.ts"))
resolve_in_root-confines_example =
    resolve_in_root-confines posix (codes "/work") (codes "//a.ts") (codes "/work/a.ts")

dirnames :
    (posix_dirname (codes "/work/a.ts") ≡ codes "/work")
    × (posix_dirname (codes "/work//src/") ≡ codes "/work/")
    × (posix_dirname (codes "/work") ≡ codes "/")
    × (posix_dirname (codes "/") ≡ codes "/")
    × (posix_dirname (codes "a.ts") ≡ codes ".")
dirnames = (refl, refl, refl, refl, refl)

abbrev IsPosixAbsolute : Str → Type 0
IsPosixAbsolute p = (rest : Str) × (p ≡ b'/' ∷ rest)

has_name-length : (s : Str) → has_name s ≡ true → 0 < length s
has_name-length [] h = cc
has_name-length (c ∷ s) h = omega arith

before_last_shorter : (s before : Str) → before_last s ≡ some before → length before + 2 ≤ length s
before_last_shorter [] before h = cc
before_last_shorter (c ∷ s) before h = step c s (before_last s) (before_last_shorter s) refl h
  where
    step :
        (c : ℕ) (s : Str) (o : Option Str)
        → ((b : Str) → before_last s ≡ some b → length b + 2 ≤ length s)
        → before_last s ≡ o
        → up_in c s o ≡ some before
        → length before + 2 ≤ length (c ∷ s)
    step c s (some b) rest e h =
        let less = rest b e in
        let size = ap length (some-injective _ _ h) in omega (arith, less, size)
    step c s none rest e h = elim (Bool-cases (c == b'/' && has_name s)) [
      | inl start ↦
          let named : has_name s ≡ true = ground arith in
          let some_name = has_name-length s named in
          let size = ap length (some-injective _ _ (rw (start) at h)) in
          omega (arith, some_name, size)
      | inr inner ↦ cc (rw (inner) at h)
    ]

shorter :
    (s : Str)
    → str_eq (posix_dirname (b'/' ∷ s)) (b'/' ∷ s) ≡ false
    → length (posix_dirname (b'/' ∷ s)) < length (b'/' ∷ s)
unfolding str_eq
shorter s h = step (before_last s) (before_last_shorter s) (top s) h
  where
    top : (s : Str) → str_eq (codes "/") (b'/' ∷ s) ≡ false → 0 < length s
    top [] h = cc
    top (c ∷ s) h = omega arith

    step :
        (o : Option Str)
        → ((b : Str) → o ≡ some b → length b + 2 ≤ length s)
        → (str_eq (codes "/") (b'/' ∷ s) ≡ false → 0 < length s)
        → str_eq (parent_of b'/' o) (b'/' ∷ s) ≡ false
        → length (parent_of b'/' o) < length (b'/' ∷ s)
    step none less top h = let long = top h in omega (arith, long)
    step (some []) less top h = let long = less [] refl in omega (arith, long)
    step (some (d ∷ b)) less top h = let long = less (d ∷ b) refl in omega (arith, long)

rooted_above : (s : Str) → IsPosixAbsolute (posix_dirname (b'/' ∷ s))
rooted_above s = step (before_last s)
  where
    step : (o : Option Str) → IsPosixAbsolute (parent_of b'/' o)
    step none = ([], refl)
    step (some []) = (codes "/", refl)
    step (some (d ∷ b)) = (d ∷ b, refl)

climbs : Climbs posix work_only IsPosixAbsolute
climbs = record {
  upward = λ p a. subst (λ q. IsPosixAbsolute (posix_dirname q)) (sym (a.1)) (rooted_above (a.0));
  shorter = λ p a.
      subst (λ q. str_eq (posix_dirname q) q ≡ false → length (posix_dirname q) < length q)
        (sym (a.1)) (shorter (a.0));
}

rooted : work_only (codes "/work") ≡ some (codes "/work")
unfolding sealed
rooted = refl

assert_real_path_in_root-answers_example :
    ((assert_real_path_in_root posix work_only (codes "/work") (codes "/work/a.ts") ≡ some true)
      × ((real : Str) × Nearest posix work_only (codes "/work/a.ts") real
          × IsWithin posix (codes "/work") real))
    ⊎ ((assert_real_path_in_root posix work_only (codes "/work") (codes "/work/a.ts") ≡ some false)
        × ((real : Str)
            → Nearest posix work_only (codes "/work/a.ts") real
            → IsWithin posix (codes "/work") real
            → ⊥))
assert_real_path_in_root-answers_example =
    assert_real_path_in_root-answers posix work_only IsPosixAbsolute climbs (codes "/work")
      (codes "/work") (codes "/work/a.ts") (codes "work/a.ts", refl) rooted
