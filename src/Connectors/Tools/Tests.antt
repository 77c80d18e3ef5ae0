-- ===== src/Connectors/Tools/Tests.antt =====
-- packages/connectors/src/tools.ts: services that answer, a user who allows, and instances of the
-- theorems.
use open_source_harness.Common.{
  ◌≡◌, ◌⊎◌, refl, Bool, true, false, none, some, List, [], ◌∷◌, ◌++◌, Str, codes, str_eq, ends_with,
  starts_with, join, here, there,
}
use open_source_harness.Common.Dict.{get, put, remove, member}
use open_source_harness.Connectors.Tokens.{StoredToken}
use open_source_harness.Connectors.OAuth.{ProviderConfig, refresh_access_token}
use open_source_harness.Connectors.OAuth.Access.{usable_access_token}
use open_source_harness.Connectors.OAuth.Tests.{plain, env, old, answer}
use open_source_harness.Connectors.Providers.{
  drive_provider, gmail_provider, slack_provider, providers_from_env,
}
use open_source_harness.Connectors.Tools.Defs.{
  GmailMessage, MailSummary, Api, Platform, ApiRequest, no_body, refused, mail_sent, escape_query,
  mail_text,
}
use open_source_harness.Connectors.Tools.Requests.{send_request, summaries}
use open_source_harness.Connectors.Tools.{
  ToolCall, gmail_send, contributes, run_tool, Turn, call_tool,
}
use open_source_harness.Connectors.Tools.Gated.{FollowsConsent}
use open_source_harness.Connectors.Tools.Allowed.{MaySend, sends_only_confirmed}
use open_source_harness.Connectors.Tools.Drive.{read_literal, read_literal-escape_query}

abbrev platform : Platform
platform = record { encode_component = λ s. s; base64url = λ s. 0 ∷ s; to_lower = λ s. s }

abbrev message_for : ApiRequest → GmailMessage
message_for request = record {
  headers = (some (codes "From"), some (codes "ann")) ∷ [];
  snippet = none;
}

-- The second message cannot be fetched.
abbrev api : Api
api = record {
  drive_files = λ r. none;
  drive_file = λ r. none;
  drive_text = λ r. none;
  mail_ids = λ r.
      some (record {
        http_ok = true;
        status = 200;
        json = some (some (codes "m1" ∷ codes "m2" ∷ []));
      });
  mail_message = λ r.
      some (record {
        http_ok = ends_with r.url (codes "1");
        status = 404;
        json = some (message_for r);
      });
  mail_send = λ r. some (record { http_ok = true; status = 200; json = none });
  slack = λ r. none;
}

abbrev turn : ToolCall → Bool → Turn
turn call allows = record {
  call = call;
  refresh = answer;
  api = api;
  confirm = λ question. allows;
  now = 20;
  later = 100_000;
}

abbrev mail : ToolCall
mail = gmail_send (codes "bob" ∷ []) (codes "hi") (codes "text") []

abbrev state : List (Str × StoredToken)
state = (codes "gmail", old (some (codes "r"))) ∷ []

abbrev google : ProviderConfig
google = gmail_provider (record { client_id = codes "g"; client_secret = none }) true

sealed : Unit {0}
unfolding get put remove member str_eq ends_with starts_with join drive_provider gmail_provider
    slack_provider providers_from_env refresh_access_token usable_access_token mail_text summaries
    contributes run_tool call_tool
sealed = tt

denied :
    (call_tool platform google plain state (turn mail false)).0.0 ≡ refused (codes "Denied by user")
unfolding sealed
denied = refl

sends : (call_tool platform google plain state (turn mail true)).0.0 ≡ mail_sent (codes "bob" ∷ [])
unfolding sealed
sends = refl

sends_only_confirmed_example :
    ((send_request platform (codes "fresh") (codes "bob" ∷ []) (codes "hi") (codes "text") []).body
      ≡ no_body)
    ⊎ (MaySend env
        × FollowsConsent platform
            (turn mail true).confirm
            (call_tool platform google plain state (turn mail true)).1
            (send_request platform
              (codes "fresh")
              (codes "bob" ∷ [])
              (codes "hi")
              (codes "text")
              []))
unfolding sealed
sends_only_confirmed_example =
    sends_only_confirmed env platform google plain state (turn mail true)
      (send_request platform (codes "fresh") (codes "bob" ∷ []) (codes "hi") (codes "text") [])
      (there (here refl)) (there (there (here refl)))

read_literal-escape_query_example :
    read_literal false
      (escape_query (codes "it's a \\' or 1=1") ++ b'\'' ∷ codes " and trashed = false")
    ≡ some (codes "it's a \\' or 1=1", codes " and trashed = false")
read_literal-escape_query_example =
    read_literal-escape_query (codes "it's a \\' or 1=1") (codes " and trashed = false")

abbrev listed : List MailSummary
listed =
    record {
      id = codes "m1";
      from = some (codes "ann");
      subject = none;
      date = none;
      snippet = none;
    }
    ∷ []
