-- ===== src/Connectors/OAuth.antt =====
-- packages/connectors/src/oauth.ts: the authorization-code flow with PKCE. The digest, the random
-- values and the clock are arguments; a request's reply is what `fetch` gives, `none` where it rejects.
-- A message of an OAuthError stands without the provider's id before it, and a moment before 1970 is 0.
-- The address that a provider is opened at has no query of its own.
pub mod Begin
pub mod Exchange
pub mod Access
pub mod Memory
pub mod Tests
use Prim.Native.String.{String}
use open_source_harness.Common.{
  ℕ, ◌+◌, ◌-◌, ◌*◌, Bool, true, false, not, ◌||◌, Option, none, some, List, [], ◌∷◌, ◌++◌, Str,
  codes, str_eq, decimal, join, is_space, filter, ◌==◌, ltb, leb, if◌then◌else◌,
}
use open_source_harness.Common.Dict.{put}
use open_source_harness.Connectors.Tokens.{StoredToken, push_unit, truthy_text, truthy_number}

pub record ProviderConfig : Type 0 where
  pub id : Str
  pub display_name : Str
  pub authorize_url : Str
  pub token_url : Str
  pub client_id : Str
  pub client_secret : Option Str
  pub scopes : List Str
  pub authorize_params : List (Str × Str)

pub record PendingAuthorization : Type 0 where
  pub provider : Str
  pub state : Str
  pub verifier : Str
  pub redirect_uri : Str
  pub created_at : ℕ

abbrev pub authorization_ttl_ms : ℕ
authorization_ttl_ms = 600_000

-- The fields of a query or of a form.
abbrev pub Fields : Type 0
Fields = List (Str × Str)

-- `for (const [key, value] of entries) url.searchParams.set(key, value)`
unfoldable pub set_each : Fields → Fields → Fields
unfolding put
set_each [] fields = fields
set_each ((key, value) ∷ entries) fields = set_each entries (put key value fields)

-- the parameters that every flow sets, in the order of the calls
abbrev pub flow_fields : ProviderConfig → Str → Str → Str → Fields
flow_fields config redirect_uri state challenge =
    (codes "client_id", config.client_id)
    ∷ (codes "redirect_uri", redirect_uri)
    ∷ (codes "response_type", codes "code")
    ∷ (codes "scope", join (codes " ") config.scopes)
    ∷ (codes "state", state)
    ∷ (codes "code_challenge", challenge)
    ∷ (codes "code_challenge_method", codes "S256")
    ∷ []

pub record Begun : Type 0 where
  pub url : Str
  pub query : Fields
  pub pending : PendingAuthorization

-- `verifier` and `state` are the random texts, `digest` is base64url of sha256.
unfoldable pub begin_authorization : (Str → Str) → ProviderConfig → Str → Str → Str → ℕ → Begun
unfolding set_each
begin_authorization digest config redirect_uri verifier state now = record {
  url = config.authorize_url;
  query =
      set_each config.authorize_params
        (set_each (flow_fields config redirect_uri state (digest verifier)) []);
  pending = record {
    provider = config.id;
    state = state;
    verifier = verifier;
    redirect_uri = redirect_uri;
    created_at = now;
  };
}

pub record TokenResponse : Type 0 where
  pub access_token : Option Str
  pub refresh_token : Option Str
  pub expires_in : Option ℕ
  pub scope : Option Str
  pub authed_user : Option Str
  pub error : Option Str
  pub error_description : Option Str
  -- Slack's `ok`
  pub answered_ok : Option Bool

-- `payload` has no field where the body is not JSON
pub record Reply : Type 0 where
  pub http_ok : Bool
  pub status : ℕ
  pub payload : TokenResponse

pub record TokenRequest : Type 0 where
  pub url : Str
  pub body : Fields

-- `throws` carries the message of an OAuthError, `rejects` is a `fetch` that did not come through.
pub data Exchanged : Type 0 where
  granted : StoredToken → Exchanged
  throws : Str → Exchanged
  rejects : Exchanged

-- `text.split(/[\s,]+/).filter(Boolean)`
unfoldable pub split_scopes : Str → List Str
unfolding is_space
split_scopes [] = [] ∷ []
split_scopes (c ∷ s) =
    let rest = split_scopes s in if is_space c || c == b',' then [] ∷ rest else push_unit c rest

abbrev pub non_empty : Str → Bool
non_empty [] = false
non_empty (c ∷ s) = true

abbrev pub scopes_of : Option Str → List Str → List Str
scopes_of none fallback = fallback
scopes_of (some scope) fallback = filter non_empty (split_scopes scope)

-- sixty seconds early
abbrev pub expiry : ℕ → Option ℕ → Option ℕ
expiry now none = none
expiry now (some seconds) = some (now + seconds * 1_000 - 60_000)

unfoldable pub to_stored_token : ProviderConfig → ℕ → Str → TokenResponse → StoredToken
unfolding split_scopes
to_stored_token config now access payload = record {
  provider = config.id;
  access_token = access;
  refresh_token = truthy_text payload.refresh_token;
  expires_at = expiry now (truthy_number payload.expires_in);
  scopes = scopes_of (truthy_text payload.scope) config.scopes;
  account = truthy_text payload.authed_user;
}

abbrev pub secret_fields : ProviderConfig → Fields
secret_fields config = elim (truthy_text config.client_secret) [
  | none ↦ []
  | some secret ↦ (codes "client_secret", secret) ∷ []
]

unfoldable pub exchange_request : ProviderConfig → PendingAuthorization → Str → TokenRequest
exchange_request config pending code = record {
  url = config.token_url;
  body =
      (codes "grant_type", codes "authorization_code")
      ∷ (codes "code", code)
      ∷ (codes "redirect_uri", pending.redirect_uri)
      ∷ (codes "client_id", config.client_id)
      ∷ (codes "code_verifier", pending.verifier)
      ∷ secret_fields config;
}

unfoldable pub refresh_request : ProviderConfig → Str → TokenRequest
refresh_request config refresh = record {
  url = config.token_url;
  body =
      (codes "grant_type", codes "refresh_token")
      ∷ (codes "refresh_token", refresh)
      ∷ (codes "client_id", config.client_id)
      ∷ secret_fields config;
}

abbrev pub is_refusal : Option Bool → Bool
is_refusal none = false
is_refusal (some answered) = not answered

-- `a ?? b`
abbrev pub or_else : Option Str → Str → Str
or_else none fallback = fallback
or_else (some s) fallback = s

abbrev pub refusal : TokenResponse → Str → Str
refusal payload otherwise = or_else payload.error_description (or_else payload.error otherwise)

abbrev pub failure : String → Reply → Str
failure what reply = codes what ++ decimal reply.status ++ codes ")"

-- `!response.ok || payload.error || payload.ok === false || !payload.access_token`, and the token.
abbrev pub unless_error : Bool → Option Str → Option Str → Option Str
unless_error bad (some message) access = none
unless_error true none access = none
unless_error false none access = access

unfoldable pub accepted : Bool → Reply → Option Str
accepted refused reply =
    unless_error (not reply.http_ok || refused) (truthy_text reply.payload.error)
      (truthy_text reply.payload.access_token)

abbrev pub exchanged : ProviderConfig → ℕ → Reply → Option Str → Exchanged
exchanged config now reply none =
    throws (refusal reply.payload (failure "Token exchange failed (" reply))
exchanged config now reply (some access) = granted (to_stored_token config now access reply.payload)

unfoldable pub read_exchange : ProviderConfig → ℕ → Reply → Exchanged
unfolding accepted to_stored_token
read_exchange config now reply =
    exchanged config now reply (accepted (is_refusal reply.payload.answered_ok) reply)

abbrev pub kept_account : Option Str → Option Str → Option Str
kept_account none fresh = fresh
kept_account (some account) fresh = some account

-- The new token keeps what the reply leaves out of the old one.
abbrev pub refreshed : ProviderConfig → StoredToken → Str → ℕ → Reply → Option Str → Exchanged
refreshed config token refresh now reply none =
    throws (or_else reply.payload.error (failure "Refresh failed (" reply))
refreshed config token refresh now reply (some access) =
    let fresh = to_stored_token config now access reply.payload in
    granted (record fresh {
      refresh_token = some (or_else reply.payload.refresh_token refresh);
      account = kept_account (truthy_text token.account) fresh.account;
    })

unfoldable pub read_refresh : ProviderConfig → StoredToken → Str → ℕ → Reply → Exchanged
unfolding accepted to_stored_token
read_refresh config token refresh now reply =
    refreshed config token refresh now reply (accepted false reply)

abbrev pub replied : (Reply → Exchanged) → Option Reply → Exchanged
replied read none = rejects
replied read (some reply) = read reply

module _ (fetch : TokenRequest → Option Reply) where
  -- The result, and the requests that went out. `now` is the clock at the call, `later` after the reply.
  unfoldable pub complete_authorization :
      ProviderConfig → PendingAuthorization → Str → Str → ℕ → ℕ → Exchanged × List TokenRequest
  unfolding read_exchange exchange_request str_eq
  complete_authorization config pending code state now later =
      if ltb authorization_ttl_ms (now - pending.created_at)
      then (throws (codes "The sign-in took too long. Start again."), [])
      else if not (str_eq state pending.state)
      then (throws (codes "State did not match. The sign-in was not the one that was started."), [])
      else (
        replied (read_exchange config later) (fetch (exchange_request config pending code)),
        exchange_request config pending code ∷ [],
      )

  abbrev pub refresh_with :
      ProviderConfig → StoredToken → ℕ → Option Str → Option Exchanged × List TokenRequest
  refresh_with config token later none = (none, [])
  refresh_with config token later (some refresh) = (
    some (
        replied (read_refresh config token refresh later) (fetch (refresh_request config refresh))),
    refresh_request config refresh ∷ [],
  )

  -- `none` where there is no refresh token.
  unfoldable pub refresh_access_token :
      ProviderConfig → StoredToken → ℕ → Option Exchanged × List TokenRequest
  unfolding read_refresh refresh_request
  refresh_access_token config token later =
      refresh_with config token later (truthy_text token.refresh_token)
