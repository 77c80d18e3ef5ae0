-- ===== src/Workspace/Paths.antt =====
-- packages/workspace/src/paths.ts: the confinement of paths to the root of a workspace. `resolve`,
-- `dirname` and the separator are those of node:path, and `realpath` is that of the file system,
-- `none` where it rejects.
pub mod Ancestors
pub mod Inside
pub mod Tests
use open_source_harness.Common.{
  ℕ, zero, suc, ◌≤◌, ◌≡◌, Bool, true, false, not, ◌||◌, Option, none, some, List, [], ◌∷◌, ◌++◌,
  Str, ◌==◌, str_eq, starts_with, ends_with, includes, length, if◌then◌else◌,
}

pub record PlatformPath : Type 0 where
  -- `path.resolve(p)`, and `path.resolve(base, p)`
  pub absolute : Str → Str
  pub resolve : Str → Str → Str
  pub dirname : Str → Str
  pub sep : Str

-- what a call gives; `path_escape` is the only error that is thrown here
pub data Confined : Type 0 where
  confined : Str → Confined
  path_escape : Confined

-- `input.replace(/^\/+/, '')`
unfoldable pub strip_leading : Str → Str
strip_leading [] = []
strip_leading (c ∷ s) = if c == b'/' then strip_leading s else c ∷ s

module _ (impl : PlatformPath) where
  open impl use {absolute, resolve, dirname, sep}

  abbrev pub with_sep : Str → Str
  with_sep root = if ends_with root sep then root else root ++ sep

  unfoldable pub is_inside : Str → Str → Bool
  unfolding starts_with ends_with str_eq
  is_inside root candidate =
      if str_eq candidate root then true else starts_with candidate (with_sep root)

  unfoldable pub resolve_in_root : Str → Str → Confined
  unfolding is_inside strip_leading includes
  resolve_in_root root input =
      let normalized_root = absolute root in
      let resolved = resolve normalized_root (strip_leading input) in
      if includes 0 input
      then path_escape
      else if is_inside normalized_root resolved
      then confined resolved
      else path_escape

  module _ (realpath : Str → Option Str) where
    -- The loop; `none` is out of fuel.
    unfoldable pub probe_from : ℕ → Str → Str → Option Bool
    unfolding is_inside str_eq
    probe_from zero real_root probe = none
    probe_from (suc fuel) real_root probe =
        let next = probe_from fuel real_root (dirname probe) in
        elim (realpath probe) [
          | some real ↦ some (is_inside real_root real)
          | none ↦ if str_eq (dirname probe) probe then some false else next
        ]

    -- `some true` where it returns, `some false` where it throws; `none` where the root is not there.
    abbrev pub assert_from : ℕ → Option Str → Str → Option Bool
    assert_from fuel none resolved = none
    assert_from fuel (some real_root) resolved = probe_from fuel real_root resolved

    unfoldable pub assert_real_path_in_root : Str → Str → Option Bool
    unfolding probe_from
    assert_real_path_in_root root resolved =
        assert_from (suc (length resolved)) (realpath (absolute root)) resolved
