-- ===== src/Workspace/Paths/Ancestors.antt =====
-- packages/workspace/src/paths.ts, assertRealPathInRoot: the check against links.
use mathlib.Core.Option.{some-injective}
use open_source_harness.Common.{
  ℕ, zero, suc, ◌<◌, ◌≡◌, refl, sym, ◌∙◌, ◌⊎◌, inl, inr, Bool, true, false, Option, none, some, Str,
  str_eq, length, arith, Bool-cases, Option-cases,
}
use open_source_harness.Workspace.Paths.{
  PlatformPath, is_inside, probe_from, assert_real_path_in_root,
}
use open_source_harness.Workspace.Paths.Inside.{IsWithin, inside-IsWithin, IsWithin-inside}

module _ (impl : PlatformPath) (realpath : Str → Option Str) where
  open impl use {absolute, resolve, dirname, sep}

  -- The directory name of an absolute path is absolute, and shorter except at the top.
  pub record Climbs (IsAbsolute : Str → Type 0) : Type 0 where
    pub upward : (p : Str) → IsAbsolute p → IsAbsolute (dirname p)
    pub shorter :
        (p : Str) → IsAbsolute p → str_eq (dirname p) p ≡ false → length (dirname p) < length p

  -- The nearest ancestor of a path that is there.
  pub data Nearest : Str → Str → Type 0 where
    it_is : {p real : Str} → realpath p ≡ some real → Nearest p real
    above_it :
        {p real : Str}
        → realpath p ≡ none
        → str_eq (dirname p) p ≡ false
        → Nearest (dirname p) real
        → Nearest p real

  -- What the loop answers for a path is decided by its nearest ancestor.
  answer_decided :
      (fuel : ℕ) (real_root probe real : Str) (b : Bool)
      → Nearest probe real
      → probe_from impl realpath fuel real_root probe ≡ some b
      → is_inside impl real_root real ≡ b
  unfolding probe_from
  answer_decided zero real_root probe real b near h = cc
  answer_decided (suc fuel) real_root probe real b (it_is there_) h =
      some-injective _ _ (rw (probe_from, there_) at h)
  answer_decided (suc fuel) real_root probe real b (above_it missing below near) h =
      answer_decided fuel real_root (dirname probe) real b near
        (rw (probe_from, missing, below) at h)

  probe_sound :
      (fuel : ℕ) (real_root probe : Str)
      → probe_from impl realpath fuel real_root probe ≡ some true
      → (real : Str) × Nearest probe real × (is_inside impl real_root real ≡ true)
  unfolding probe_from
  probe_sound zero real_root probe h = cc
  probe_sound (suc fuel) real_root probe h = elim (Option-cases (realpath probe)) [
    | inr (real, there_) ↦ (real, it_is there_, some-injective _ _ (rw (probe_from, there_) at h))
    | inl missing ↦ elim (Bool-cases (str_eq (dirname probe) probe)) [
      | inl top ↦ cc (rw (probe_from, missing, top) at h)
      | inr below ↦
          let (real, near, inside) =
            probe_sound fuel real_root (dirname probe) (rw (probe_from, missing, below) at h) in
          (real, above_it missing below near, inside)
    ]
  ]

  module _ (IsAbsolute : Str → Type 0) (climbs : Climbs IsAbsolute) where
    probe_returns :
        (fuel : ℕ) (real_root probe : Str)
        → IsAbsolute probe
        → length probe < fuel
        → (b : Bool) × (probe_from impl realpath fuel real_root probe ≡ some b)
    unfolding probe_from
    probe_returns zero real_root probe a h = absurd (omega (arith, h))
    probe_returns (suc fuel) real_root probe a h = elim (Option-cases (realpath probe)) [
      | inr (real, there_) ↦ (is_inside impl real_root real, rw (probe_from, there_) refl)
      | inl missing ↦ elim (Bool-cases (str_eq (dirname probe) probe)) [
        | inl top ↦ (false, rw (probe_from, missing, top) refl)
        | inr below ↦
            let less = climbs.shorter probe a below in
            let (b, e) =
              probe_returns fuel real_root (dirname probe) (climbs.upward probe a)
                (omega (arith, h, less)) in
            (b, rw (probe_from, missing, below) e)
      ]
    ]

    -- Where the root is there, the check of links answers for every absolute path: it accepts the
    -- path, and then the nearest ancestor that exists, the path itself included, is really the real
    -- root or stands behind it and a separator; or it throws, and then no ancestor exists, or the
    -- nearest one is elsewhere. This needs the directory name of an absolute path to be absolute,
    -- and shorter except at the top.
    pub assert_real_path_in_root-answers :
        (root real_root resolved : Str)
        → IsAbsolute resolved
        → realpath (absolute root) ≡ some real_root
        → ((assert_real_path_in_root impl realpath root resolved ≡ some true)
            × ((real : Str) × Nearest resolved real × IsWithin impl real_root real))
          ⊎ ((assert_real_path_in_root impl realpath root resolved ≡ some false)
              × ((real : Str) → Nearest resolved real → IsWithin impl real_root real → ⊥))
    unfolding assert_real_path_in_root
    assert_real_path_in_root-answers root real_root resolved a there_ =
        let (b, e) = probe_returns (suc (length resolved)) real_root resolved a (omega arith) in
        rw (assert_real_path_in_root, there_) (answer b e)
      where
        answer :
            (b : Bool)
            → probe_from impl realpath (suc (length resolved)) real_root resolved ≡ some b
            → ((probe_from impl realpath (suc (length resolved)) real_root resolved ≡ some true)
                × ((real : Str) × Nearest resolved real × IsWithin impl real_root real))
              ⊎ ((probe_from impl realpath (suc (length resolved)) real_root resolved ≡ some false)
                  × ((real : Str) → Nearest resolved real → IsWithin impl real_root real → ⊥))
        answer true e =
            let (real, near, inside) = probe_sound (suc (length resolved)) real_root resolved e in
            inl (e, (real, near, inside-IsWithin impl real_root real inside))
        answer false e = inr (
          e,
          λ real near within. absurd (
              cc (
                sym (IsWithin-inside impl real_root real within)
                ∙ answer_decided (suc (length resolved)) real_root resolved real false near e)),
        )
