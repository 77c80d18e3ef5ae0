-- ===== src/Connectors/Tools/Allowed.antt =====
-- packages/connectors/src/tools.ts with providers.ts: what an installation must have switched on before
-- anything is sent or posted.
use open_source_harness.Common.{
  ◌≡◌, refl, ◌⊎◌, inl, inr, Bool, true, false, Option, none, some, [], ◌∷◌, Str, str_eq, ends_with,
  starts_with, In, All-In, All, All-append, map, Bool-cases,
}
use open_source_harness.Common.Dict.{member}
use open_source_harness.Connectors.Tokens.{truthy_text}
use open_source_harness.Connectors.OAuth.{ProviderConfig}
use open_source_harness.Connectors.OAuth.Access.{
  TokenStore, Access, usable, not_connected, failed, usable_access_token,
}
use open_source_harness.Connectors.Providers.{
  Credentials, Environment, is_on, google_providers, slack_providers, drive_provider,
  gmail_provider, slack_provider, providers_from_env,
}
use open_source_harness.Connectors.Tools.Defs.{
  Platform, ApiRequest, no_body, called, refreshed_token,
}
use open_source_harness.Connectors.Tools.{
  ToolCall, drive_search, drive_read, gmail_search, slack_search, slack_read_channel, gmail_send,
  slack_post, can_send, can_post, contributes, Turn, with_access, call_tool,
}
use open_source_harness.Connectors.Tools.Gated.{
  is_sender, Reads, In-Reads, refreshes-Reads, run_tool-Reads, FollowsConsent, call_tool-IsGated,
}

-- Sending mail or posting messages is switched on.
abbrev pub MaySend : Environment → Type 0
MaySend env = (is_on env.gmail_allow_send ≡ true) ⊎ (is_on env.slack_allow_post ≡ true)

abbrev SendsOnlyIf : Type 0 → ProviderConfig → Type 0
SendsOnlyIf P config = (can_send config ≡ true → P) × (can_post config ≡ true → P)

module _ (options : Credentials) where
  drive_sends : (allow : Bool) (P : Type 0) → SendsOnlyIf P (drive_provider options allow)
  unfolding drive_provider str_eq
  drive_sends allow P = (λ h. cc, λ h. cc)

  gmail_sends : (allow : Bool) → SendsOnlyIf (allow ≡ true) (gmail_provider options allow)
  unfolding gmail_provider str_eq ends_with starts_with
  gmail_sends true = (λ h. refl, λ h. cc)
  gmail_sends false = (λ h. cc, λ h. cc)

  slack_sends : (allow : Bool) → SendsOnlyIf (allow ≡ true) (slack_provider options allow)
  unfolding slack_provider str_eq member
  slack_sends true = (λ h. cc, λ h. refl)
  slack_sends false = (λ h. cc, λ h. cc)

providers-SendOnlyIf :
    (env : Environment) → All (SendsOnlyIf (MaySend env)) (providers_from_env env)
unfolding providers_from_env
providers-SendOnlyIf env =
    All-append (SendsOnlyIf (MaySend env)) (google_providers env (truthy_text env.google_client_id))
      (slack_providers env (truthy_text env.slack_client_id))
      (google (truthy_text env.google_client_id)) (slack (truthy_text env.slack_client_id))
  where
    google : (o : Option Str) → All (SendsOnlyIf (MaySend env)) (google_providers env o)
    google none = tt
    google (some id) =
        let common : Credentials = record {
          client_id = id;
          client_secret = env.google_client_secret;
        } in
        let (send, post) = gmail_sends common (is_on env.gmail_allow_send) in
        (
          drive_sends common (is_on env.google_allow_write) (MaySend env),
          ((λ h. inl (send h), λ h. inl (post h)), tt),
        )

    slack : (o : Option Str) → All (SendsOnlyIf (MaySend env)) (slack_providers env o)
    slack none = tt
    slack (some id) =
        let (send, post) =
          slack_sends (record { client_id = id; client_secret = env.slack_client_secret })
            (is_on env.slack_allow_post) in
        ((λ h. inr (send h), λ h. inr (post h)), tt)

-- A tool that writes is contributed only where it may send.
sender_contributed :
    (P : Type 0) (config : ProviderConfig) (call : ToolCall)
    → SendsOnlyIf P config
    → contributes config call ≡ true
    → is_sender call ≡ true
    → P
unfolding contributes
sender_contributed P config (drive_search query n) s c h = cc
sender_contributed P config (drive_read file_id n) s c h = cc
sender_contributed P config (gmail_search query n) s c h = cc
sender_contributed P config (gmail_send to subject text copies) (send, post) c h = send c
sender_contributed P config (slack_search query n) s c h = cc
sender_contributed P config (slack_read_channel channel n) s c h = cc
sender_contributed P config (slack_post channel text) (send, post) c h = post c

module _ (platform : Platform) (config : ProviderConfig) where
  with_access-Reads :
      (turn : Turn) (access : Access)
      → is_sender turn.call ≡ false
      → All Reads (with_access platform config turn access).1
  with_access-Reads turn not_connected h = tt
  with_access-Reads turn failed h = tt
  with_access-Reads turn (usable []) h = tt
  with_access-Reads turn (usable (c ∷ token)) h =
      run_tool-Reads platform turn.confirm config turn.api (c ∷ token) turn.call h

  call_tool-Reads :
      (store : TokenStore) (state : TokenStore.State store) (turn : Turn)
      → (contributes config turn.call ≡ false) ⊎ (is_sender turn.call ≡ false)
      → All Reads (call_tool platform config store state turn).1
  unfolding call_tool
  call_tool-Reads store state turn h = elim (Bool-cases (contributes config turn.call)) [
    | inr missing ↦ rw (missing) tt
    | inl offered ↦
        let access = usable_access_token store turn.refresh state config turn.now turn.later in
        rw (offered) (
          All-append Reads (map refreshed_token access.1)
            (with_access platform config turn access.0.0).1
            (refreshes-Reads platform turn.confirm access.1)
            (with_access-Reads turn access.0.0
              (elim h [ inl missing ↦ cc (offered, missing) | inr reader ↦ reader ])))
  ]

-- Whatever a tool of a configured provider is called with, and whatever the services and the user
-- answer, each request that goes out to a service writes nothing there, or the installation has
-- switched on sending mail or posting messages and the request goes out right after a question that
-- the user allowed. That question shows all of what is sent: the recipients, the copies, the subject
-- and the text of which the mail is made, or the channel and the text of the message.
pub sends_only_confirmed :
    (env : Environment) (platform : Platform) (config : ProviderConfig) (store : TokenStore)
    (state : TokenStore.State store) (turn : Turn) (request : ApiRequest)
    → In config (providers_from_env env)
    → In (called request) (call_tool platform config store state turn).1
    → (request.body ≡ no_body)
      ⊎ (MaySend env
          × FollowsConsent platform turn.confirm
              (call_tool platform config store state turn).1
              request)
sends_only_confirmed env platform config store state turn request configured went_out =
    elim (Bool-cases (contributes config turn.call)) [
      | inr missing ↦ inl (read (inl missing))
      | inl offered ↦ elim (Bool-cases (is_sender turn.call)) [
        | inr reader ↦ inl (read (inr reader))
        | inl sender ↦
            elim ((call_tool-IsGated platform config store state turn).gated request went_out) [
              | inl reads ↦ inl reads
              | inr confirmed ↦ inr (
                sender_contributed (MaySend env) config turn.call
                    (All-In (SendsOnlyIf (MaySend env)) (providers_from_env env)
                      (providers-SendOnlyIf env) configured)
                    offered sender,
                confirmed,
              )
            ]
      ]
    ]
  where
    read :
        (contributes config turn.call ≡ false) ⊎ (is_sender turn.call ≡ false)
        → request.body ≡ no_body
    read h =
        In-Reads platform turn.confirm request _
          (call_tool-Reads platform config store state turn h) went_out
