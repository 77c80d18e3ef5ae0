-- ===== src/Session/Checkpoints/Names.antt =====
-- packages/session/src/checkpoints.ts, encodePath: two files never share a directory of snapshots.
use open_source_harness.Common.{
  ℕ, ◌==◌, ◌≡◌, ◌≢◌, refl, sym, ap, ◌∙◌, Bool, true, false, [], ◌∷◌, Str, codes, includes, arith,
  if◌then◌else◌,
}
use open_source_harness.Session.Checkpoints.{strip_slashes, replace_all, or_root, encode_path}

-- `_` and the code unit behind it, read back
abbrev unescape : ℕ → ℕ
unescape c = if c == b'-' then b'_' else b'/'

-- The inverse of the two replacements: `pending` says that a `_` has just been read.
unfoldable decode : Bool → Str → Str
decode pending [] = []
decode false (c ∷ s) = if c == b'_' then decode true s else c ∷ decode false s
decode true (c ∷ s) = unescape c ∷ decode false s

abbrev escaped : Str → Str
escaped s = replace_all b'/' (codes "__") (replace_all b'_' (codes "_-") s)

decode-escaped : (s : Str) → decode false (escaped s) ≡ s
unfolding decode replace_all
decode-escaped [] = refl
decode-escaped (c ∷ s) = ground (arith, decode-escaped s)

no_slash : (s : Str) → includes b'/' (escaped s) ≡ false
unfolding includes replace_all
no_slash [] = refl
no_slash (c ∷ s) = ground (arith, no_slash s)

or_root_id : (s : Str) → s ≢ [] → or_root s ≡ s
or_root_id [] h = absurd (h refl)
or_root_id (c ∷ s) h = refl

or_root-no_slash : (s : Str) → includes b'/' s ≡ false → includes b'/' (or_root s) ≡ false
unfolding includes
or_root-no_slash [] h = refl
or_root-no_slash (c ∷ s) h = h

escaped-eq-nil : (s : Str) → escaped s ≡ [] → s ≡ []
escaped-eq-nil s e = sym (decode-escaped s) ∙ (ap (decode false) e ∙ unfold decode in refl)

-- The name of a file's directory of snapshots is one path segment, and two files that are not the
-- root have the same name only if their paths agree up to leading slashes.
pub encode_path-injective :
    (a b : Str)
    → strip_slashes a ≢ []
    → strip_slashes b ≢ []
    → encode_path a ≡ encode_path b
    → (strip_slashes a ≡ strip_slashes b) × (includes b'/' (encode_path a) ≡ false)
unfolding encode_path
encode_path-injective a b h k e = (
  sym (decode-escaped (strip_slashes a))
      ∙ ap (decode false) (
          sym (or_root_id _ λ n. h (escaped-eq-nil (strip_slashes a) n))
          ∙ e
          ∙ or_root_id _ λ n. k (escaped-eq-nil (strip_slashes b) n))
      ∙ decode-escaped (strip_slashes b),
  or_root-no_slash _ (no_slash (strip_slashes a)),
)
