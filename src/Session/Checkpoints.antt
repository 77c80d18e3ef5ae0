-- ===== src/Session/Checkpoints.antt =====
-- packages/session/src/checkpoints.ts: the names under which snapshots of a file are kept.
-- `posix_join` is path.posix.join.
pub mod Names
pub mod Tests
use open_source_harness.Common.{ℕ, ◌==◌, List, [], ◌∷◌, ◌++◌, Str, codes, decimal, if◌then◌else◌}

unfoldable pub checkpoint_dir : Str
checkpoint_dir = codes "/.checkpoints"

-- `s.replace(/^\/+/, '')`
unfoldable pub strip_slashes : Str → Str
strip_slashes [] = []
strip_slashes (c ∷ s) = if c == b'/' then strip_slashes s else c ∷ s

-- `s.replace(/u/g, r)` for one code unit u
unfoldable pub replace_all : ℕ → Str → Str → Str
replace_all u r [] = []
replace_all u r (c ∷ s) = let rest = replace_all u r s in if c == u then r ++ rest else c ∷ rest

abbrev pub or_root : Str → Str
or_root [] = codes "root"
or_root (c ∷ s) = c ∷ s

unfoldable pub encode_path : Str → Str
unfolding strip_slashes replace_all
encode_path file_path =
    or_root
      (replace_all b'/' (codes "__") (replace_all b'_' (codes "_-") (strip_slashes file_path)))

unfoldable pub checkpoint_path_for : (List Str → Str) → Str → ℕ → Str
unfolding encode_path checkpoint_dir
checkpoint_path_for posix_join file_path taken_at =
    posix_join (checkpoint_dir ∷ encode_path file_path ∷ (decimal taken_at ++ codes ".bak") ∷ [])
