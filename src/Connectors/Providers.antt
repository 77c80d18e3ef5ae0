-- ===== src/Connectors/Providers.antt =====
-- packages/connectors/src/providers.ts: Drive, Gmail and Slack, with the scopes that each asks for.
pub mod Flows
use open_source_harness.Common.{
  Bool, true, false, Option, none, some, List, [], ◌∷◌, ◌++◌, Str, codes, join, str_eq,
}
use open_source_harness.Connectors.Tokens.{truthy_text}
use open_source_harness.Connectors.OAuth.{ProviderConfig, Fields}

pub record Credentials : Type 0 where
  pub client_id : Str
  pub client_secret : Option Str

abbrev pub only_if : Bool → Str → List Str
only_if true scope = scope ∷ []
only_if false scope = []

abbrev google_authorize : Str
google_authorize = codes "https://accounts.google.com/o/oauth2/v2/auth"

abbrev google_token : Str
google_token = codes "https://oauth2.googleapis.com/token"

-- without the first two Google issues no refresh token
abbrev google_params : Fields
google_params =
    (codes "access_type", codes "offline")
    ∷ (codes "prompt", codes "consent")
    ∷ (codes "include_granted_scopes", codes "true")
    ∷ []

abbrev pub gmail_send_scope : Str
gmail_send_scope = codes "https://www.googleapis.com/auth/gmail.send"

abbrev pub chat_write : Str
chat_write = codes "chat:write"

unfoldable pub drive_provider : Credentials → Bool → ProviderConfig
drive_provider options allow_write = record {
  id = codes "drive";
  display_name = codes "Google Drive";
  authorize_url = google_authorize;
  token_url = google_token;
  client_id = options.client_id;
  client_secret = truthy_text options.client_secret;
  scopes =
      codes "https://www.googleapis.com/auth/drive.readonly"
      ∷ only_if allow_write (codes "https://www.googleapis.com/auth/drive.file");
  authorize_params = google_params;
}

unfoldable pub gmail_provider : Credentials → Bool → ProviderConfig
gmail_provider options allow_send = record {
  id = codes "gmail";
  display_name = codes "Gmail";
  authorize_url = google_authorize;
  token_url = google_token;
  client_id = options.client_id;
  client_secret = truthy_text options.client_secret;
  scopes =
      codes "https://www.googleapis.com/auth/gmail.readonly" ∷ only_if allow_send gmail_send_scope;
  authorize_params = google_params;
}

unfoldable pub slack_provider : Credentials → Bool → ProviderConfig
slack_provider options allow_post = record {
  id = codes "slack";
  display_name = codes "Slack";
  authorize_url = codes "https://slack.com/oauth/v2/authorize";
  token_url = codes "https://slack.com/api/oauth.v2.access";
  client_id = options.client_id;
  client_secret = truthy_text options.client_secret;
  scopes =
      codes "channels:history"
      ∷ codes "channels:read"
      ∷ codes "search:read"
      ∷ codes "users:read"
      ∷ only_if allow_post chat_write;
  authorize_params =
      (
        codes "user_scope",
        join (codes ",") (
            codes "channels:history"
            ∷ codes "channels:read"
            ∷ codes "search:read"
            ∷ only_if allow_post chat_write),
      )
      ∷ [];
}

-- the variables that are read
pub record Environment : Type 0 where
  pub google_client_id : Option Str
  pub google_client_secret : Option Str
  pub google_allow_write : Option Str
  pub gmail_allow_send : Option Str
  pub slack_client_id : Option Str
  pub slack_client_secret : Option Str
  pub slack_allow_post : Option Str

-- `value === '1'`
abbrev pub is_on : Option Str → Bool
is_on none = false
is_on (some value) = str_eq value (codes "1")

abbrev pub google_providers : Environment → Option Str → List ProviderConfig
google_providers env none = []
google_providers env (some id) =
    let common : Credentials = record {
      client_id = id;
      client_secret = env.google_client_secret;
    } in
    drive_provider common (is_on env.google_allow_write)
    ∷ gmail_provider common (is_on env.gmail_allow_send)
    ∷ []

abbrev pub slack_providers : Environment → Option Str → List ProviderConfig
slack_providers env none = []
slack_providers env (some id) =
    slack_provider (record { client_id = id; client_secret = env.slack_client_secret })
      (is_on env.slack_allow_post)
    ∷ []

unfoldable pub providers_from_env : Environment → List ProviderConfig
unfolding drive_provider gmail_provider slack_provider str_eq
providers_from_env env =
    google_providers env (truthy_text env.google_client_id)
    ++ slack_providers env (truthy_text env.slack_client_id)
