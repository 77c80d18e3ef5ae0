-- ===== src/Connectors/OAuth/Tests.antt =====
-- packages/connectors/src/oauth.ts: a provider that answers every request, a store that is a map, and
-- instances of the theorems.
use open_source_harness.Common.{
  ◌≡◌, refl, Bool, true, false, Option, none, some, List, [], ◌∷◌, Str, codes, str_eq,
  if◌then◌else◌,
}
use open_source_harness.Common.Dict.{get, put, remove, get-put, get-remove}
use open_source_harness.Connectors.Tokens.{StoredToken}
use open_source_harness.Connectors.OAuth.{
  ProviderConfig, PendingAuthorization, Reply, TokenRequest, complete_authorization,
  to_stored_token, read_exchange, read_refresh, accepted, split_scopes, exchange_request,
  refresh_request, refresh_access_token,
}
use open_source_harness.Connectors.OAuth.Exchange.{IsGuarded, complete_authorization-IsGuarded}
use open_source_harness.Connectors.OAuth.Access.{
  TokenStore, usable, not_connected, IsSettled, usable_access_token, usable_access_token-IsSettled,
}
use open_source_harness.Connectors.Providers.{Environment, gmail_provider}

pub plain_get_put :
    (s : List (Str × StoredToken)) (t : StoredToken) (p : Str)
    → ◌≡◌ {A = Option (Option StoredToken)}
        (some (get p (put t.provider t s)))
        (if str_eq t.provider p then some (some t) else some (get p s))
plain_get_put s t p = rw (get-put t.provider p t s) (pushed (str_eq t.provider p))
  where
    pushed :
        (b : Bool)
        → some (if b then some t else get p s) ≡ (if b then some (some t) else some (get p s))
    pushed true = refl
    pushed false = refl

pub plain_get_remove :
    (s : List (Str × StoredToken)) (q p : Str)
    → ◌≡◌ {A = Option (Option StoredToken)}
        (some (get p (remove q s)))
        (if str_eq q p then some none else some (get p s))
plain_get_remove s q p = rw (get-remove q p s) (pushed (str_eq q p))
  where
    pushed :
        (b : Bool) → some (if b then none else get p s) ≡ (if b then some none else some (get p s))
    pushed true = refl
    pushed false = refl

abbrev pub plain : TokenStore
plain = record {
  State = List (Str × StoredToken);
  get = λ s p. some (get p s);
  put = λ s t. put t.provider t s;
  remove = λ s p. remove p s;
  get_put = plain_get_put;
  get_remove = plain_get_remove;
}

abbrev pub gmail : ProviderConfig
gmail = gmail_provider (record { client_id = codes "c"; client_secret = none }) true

abbrev pub answer : TokenRequest → Option Reply
answer request = some (record {
  http_ok = true;
  status = 200;
  payload = record {
    access_token = some (codes "fresh");
    refresh_token = none;
    expires_in = some 3_600;
    scope = some (codes "a, b c");
    authed_user = none;
    error = none;
    error_description = none;
    answered_ok = none;
  };
})

abbrev pub old : Option Str → StoredToken
old refresh = record {
  provider = codes "gmail";
  access_token = codes "stale";
  refresh_token = refresh;
  expires_at = some 10;
  scopes = [];
  account = some (codes "me");
}

abbrev pending : PendingAuthorization
pending = record {
  provider = codes "gmail";
  state = codes "s";
  verifier = codes "v";
  redirect_uri = codes "http://127.0.0.1";
  created_at = 1_000;
}

sealed : Unit {0}
unfolding get put remove str_eq gmail_provider complete_authorization to_stored_token read_exchange
    read_refresh accepted split_scopes exchange_request refresh_request refresh_access_token
    usable_access_token
sealed = tt

-- A stale token is replaced by one that keeps the refresh token and the account.
refreshes :
    (usable_access_token plain answer
      ((codes "gmail", old (some (codes "r"))) ∷ [])
      gmail
      20
      100_000).0
    ≡ (
      usable (codes "fresh"),
      (
        codes "gmail",
        record {
          provider = codes "gmail";
          access_token = codes "fresh";
          refresh_token = some (codes "r");
          expires_at = some 3_640_000;
          scopes = codes "a" ∷ codes "b" ∷ codes "c" ∷ [];
          account = some (codes "me");
        },
      )
          ∷ [],
    )
unfolding sealed
refreshes = refl

-- Without a refresh token the account is forgotten.
forgets :
    (usable_access_token plain answer ((codes "gmail", old none) ∷ []) gmail 20 100_000).0
    ≡ (not_connected, [])
unfolding sealed
forgets = refl

usable_access_token-IsSettled_example :
    IsSettled plain answer ((codes "gmail", old (some (codes "r"))) ∷ []) gmail 20 (
      usable_access_token plain answer
        ((codes "gmail", old (some (codes "r"))) ∷ [])
        gmail
        20
        100_000)
usable_access_token-IsSettled_example =
    usable_access_token-IsSettled plain answer ((codes "gmail", old (some (codes "r"))) ∷ []) gmail
      20 100_000

complete_authorization-IsGuarded_example :
    IsGuarded answer gmail pending
      (codes "code")
      (codes "s")
      2_000
      (complete_authorization answer gmail pending (codes "code") (codes "s") 2_000 3_000)
complete_authorization-IsGuarded_example =
    complete_authorization-IsGuarded answer gmail pending (codes "code") (codes "s") 2_000 3_000

abbrev pub env : Environment
env = record {
  google_client_id = some (codes "g");
  google_client_secret = none;
  google_allow_write = none;
  gmail_allow_send = some (codes "1");
  slack_client_id = some (codes "s");
  slack_client_secret = none;
  slack_allow_post = some (codes "0");
}
