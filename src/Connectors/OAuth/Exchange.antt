-- ===== src/Connectors/OAuth/Exchange.antt =====
-- packages/connectors/src/oauth.ts, completeAuthorization: what stands behind a token that is granted.
use mathlib.Core.Path.{subst}
use open_source_harness.Common.{
  ℕ, ◌+◌, ◌-◌, ◌≤◌, ◌≡◌, ◌≢◌, refl, ◌⊎◌, inl, inr, Bool, true, false, not, ◌||◌, Option, none, some,
  List, [], ◌∷◌, Str, codes, str_eq, str_eq_sound, ltb, Bool-cases, arith,
}
use open_source_harness.Common.Dict.{get}
use open_source_harness.Connectors.Tokens.{StoredToken, truthy_text}
use open_source_harness.Connectors.OAuth.{
  ProviderConfig, PendingAuthorization, Reply, TokenRequest, Exchanged, granted, throws, rejects,
  authorization_ttl_ms, unless_error, accepted, is_refusal, exchanged, read_exchange, replied,
  exchange_request, to_stored_token, complete_authorization,
}

-- A reply that is no error: HTTP succeeded, no error is named, `ok` is not false, and the access token
-- is there.
abbrev pub IsGrant : Reply → Str → Type 0
IsGrant reply access =
    (reply.http_ok ≡ true)
    × (truthy_text reply.payload.error ≡ none)
    × (is_refusal reply.payload.answered_ok ≡ false)
    × (truthy_text reply.payload.access_token ≡ some access)

unless_error-eq-some :
    (bad : Bool) (message access : Option Str) {a : Str}
    → unless_error bad message access ≡ some a
    → (bad ≡ false) × (message ≡ none) × (access ≡ some a)
unless_error-eq-some bad (some message) access h = cc
unless_error-eq-some true none access h = cc
unless_error-eq-some false none access h = (refl, refl, h)

accepted-IsGrant :
    (reply : Reply) (access : Str)
    → accepted (is_refusal reply.payload.answered_ok) reply ≡ some access
    → IsGrant reply access
unfolding accepted
accepted-IsGrant reply access h =
    let (good, unnamed, there_is) =
      unless_error-eq-some (not reply.http_ok || is_refusal reply.payload.answered_ok) _ _ h in
    (ground (arith, good), unnamed, ground (arith, good), there_is)

module _ (fetch : TokenRequest → Option Reply) (config : ProviderConfig)
    (pending : PendingAuthorization) (code : Str) where
  -- The token is the provider's own, of a reply to the one request that went out.
  abbrev Granted : Exchanged → Type 0
  Granted (granted token) =
      (reply : Reply) × (fetch (exchange_request config pending code) ≡ some reply)
      × IsGrant reply token.access_token
      × (token.provider ≡ config.id)
  Granted (throws message) = Unit
  Granted rejects = Unit

  exchanged-Granted :
      (later : ℕ) (reply : Reply) (o : Option Str)
      → fetch (exchange_request config pending code) ≡ some reply
      → accepted (is_refusal reply.payload.answered_ok) reply ≡ o
      → Granted (exchanged config later reply o)
  unfolding to_stored_token
  exchanged-Granted later reply none sent h = tt
  exchanged-Granted later reply (some access) sent h =
      (reply, sent, accepted-IsGrant reply access h, refl)

  replied-Granted :
      (later : ℕ) (o : Option Reply)
      → fetch (exchange_request config pending code) ≡ o
      → Granted (replied (read_exchange config later) o)
  unfolding read_exchange
  replied-Granted later none sent = tt
  replied-Granted later (some reply) sent = exchanged-Granted later reply _ sent refl

  pub record IsGuarded (state : Str) (now : ℕ) (answer : Exchanged × List TokenRequest)
      : Type 0 where
    -- a forged or a late callback reaches no provider
    pub nothing_sent :
        (state ≢ pending.state) ⊎ (pending.created_at + 600_000 + 1 ≤ now)
        → (answer.1 ≡ []) × ((message : Str) × (answer.0 ≡ throws message))
    pub one_sent : answer.1 ≢ [] → answer.1 ≡ exchange_request config pending code ∷ []
    pub when_granted :
        (token : StoredToken)
        → answer.0 ≡ granted token
        → (state ≡ pending.state)
          × (now ≤ pending.created_at + 600_000)
          × (get (codes "code_verifier") (exchange_request config pending code).body
              ≡ some pending.verifier)
          × Granted (granted token)

  verifier_sent :
      get (codes "code_verifier") (exchange_request config pending code).body
      ≡ some pending.verifier
  unfolding exchange_request get str_eq
  verifier_sent = refl

  -- A callback with another state, or after ten minutes, is refused and no request goes out. A token is
  -- granted only in time and to the state that was started: it is the provider's own, and its access
  -- token stands in a reply to the one request that went out, which is no error (of the status, of a
  -- named error, or of Slack's ok) and carried the verifier of the pending record.
  pub complete_authorization-IsGuarded :
      (state : Str) (now later : ℕ)
      → IsGuarded state now (complete_authorization fetch config pending code state now later)
  unfolding complete_authorization
  complete_authorization-IsGuarded state now later =
      elim (Bool-cases (ltb authorization_ttl_ms (now - pending.created_at))) [
        | inl late ↦ rw (late) (record {
          nothing_sent = λ h. (refl, (_, refl));
          one_sent = λ h. absurd (h refl);
          when_granted = λ token h. cc;
        })
        | inr in_time ↦ elim (Bool-cases (str_eq state pending.state)) [
          | inr differs ↦ rw (in_time) (
              rw (differs) (record {
                nothing_sent = λ h. (refl, (_, refl));
                one_sent = λ h. absurd (h refl);
                when_granted = λ token h. cc;
              }))
          | inl same ↦ rw (in_time) (
              rw (same) (record {
                nothing_sent = λ h. elim h [
                  | inl differs ↦ absurd (differs (str_eq_sound state pending.state same))
                  | inr late ↦ absurd (ground arith)
                ];
                one_sent = λ h. refl;
                when_granted = λ token h. (
                  str_eq_sound state pending.state same,
                  ground arith,
                  verifier_sent,
                  subst Granted h (replied-Granted later _ refl),
                );
              }))
        ]
      ]
