-- ===== src/Session/Checkpoints/Tests.antt =====
-- packages/session/src/checkpoints.ts: two paths that a plain replacement of slashes would confuse,
-- and an instance of the theorem.
use open_source_harness.Common.{◌≡◌, ◌≢◌, refl, [], codes, arith}
use open_source_harness.Session.Checkpoints.{strip_slashes, replace_all, encode_path}

names_differ :
    (encode_path (codes "/src/a.ts") ≡ codes "src__a.ts")
    × (encode_path (codes "/src__a.ts") ≡ codes "src_-_-a.ts")
    × (encode_path (codes "/") ≡ codes "root")
unfolding encode_path strip_slashes replace_all
names_differ = (refl, refl, refl)

not_root : codes "src/a.ts" ≢ []
not_root e = ground arith
