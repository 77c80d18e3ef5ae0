-- ===== src/Connectors/OAuth/Begin.antt =====
-- packages/connectors/src/oauth.ts, beginAuthorization: what the opened address carries.
use open_source_harness.Common.{◌≡◌, refl, false, some, [], ◌∷◌, ◌∙◌, Str, codes, str_eq, arith, ℕ}
use open_source_harness.Common.Dict.{member, keys, get, put, get-put}
use open_source_harness.Connectors.OAuth.{
  ProviderConfig, Fields, set_each, flow_fields, Begun, begin_authorization,
}

-- A key that later settings do not name keeps its value.
set_each_keeps :
    (key : Str) (entries fields : Fields)
    → member key (keys entries) ≡ false
    → get key (set_each entries fields) ≡ get key fields
unfolding set_each member
set_each_keeps key [] fields free = refl
set_each_keeps key ((k, v) ∷ entries) fields free =
    set_each_keeps key entries (put k v fields) (ground arith)
    ∙ (get-put k key v fields ∙ ground arith)

-- The keys on which the defence against an intercepted or a forged redirect rests.
abbrev pub KeepsProtection : ProviderConfig → Type 0
KeepsProtection config =
    (member (codes "state") (keys config.authorize_params) ≡ false)
    × (member (codes "code_challenge") (keys config.authorize_params) ≡ false)
    × (member (codes "code_challenge_method") (keys config.authorize_params) ≡ false)

abbrev pub IsProtected : (Str → Str) → Begun → Type 0
IsProtected digest begun =
    (get (codes "state") begun.query ≡ some begun.pending.state)
    × (get (codes "code_challenge") begun.query ≡ some (digest begun.pending.verifier))
    × (get (codes "code_challenge_method") begun.query ≡ some (codes "S256"))

module _ (digest : Str → Str) (config : ProviderConfig) (redirect_uri verifier state : Str)
    (now : ℕ) where
  set_first :
      (get (codes "state") (set_each (flow_fields config redirect_uri state (digest verifier)) [])
        ≡ some state)
      × (get
            (codes "code_challenge")
            (set_each (flow_fields config redirect_uri state (digest verifier)) [])
          ≡ some (digest verifier))
      × (get
            (codes "code_challenge_method")
            (set_each (flow_fields config redirect_uri state (digest verifier)) [])
          ≡ some (codes "S256"))
  unfolding set_each get put str_eq
  set_first = (refl, refl, refl)

  pub begin_authorization-IsProtected :
      KeepsProtection config
      → IsProtected digest (begin_authorization digest config redirect_uri verifier state now)
  unfolding begin_authorization
  begin_authorization-IsProtected (a, b, c) =
      let (x, y, z) = set_first in
      (
        set_each_keeps (codes "state") config.authorize_params _ a ∙ x,
        set_each_keeps (codes "code_challenge") config.authorize_params _ b ∙ y,
        set_each_keeps (codes "code_challenge_method") config.authorize_params _ c ∙ z,
      )
