-- ===== src/Connectors/Providers/Flows.antt =====
-- packages/connectors/src/providers.ts: what holds of each provider that the environment configures.
use open_source_harness.Common.{
  ℕ, refl, Option, none, some, Str, str_eq, All, All-append, All-weaken,
}
use open_source_harness.Common.Dict.{member}
use open_source_harness.Connectors.Tokens.{truthy_text}
use open_source_harness.Connectors.OAuth.{begin_authorization}
use open_source_harness.Connectors.OAuth.Begin.{
  KeepsProtection, IsProtected, begin_authorization-IsProtected,
}
use open_source_harness.Connectors.Providers.{
  Environment, google_providers, slack_providers, drive_provider, gmail_provider, slack_provider,
  providers_from_env,
}

providers-KeepProtection : (env : Environment) → All KeepsProtection (providers_from_env env)
unfolding providers_from_env drive_provider gmail_provider slack_provider member str_eq
providers-KeepProtection env =
    All-append KeepsProtection (google_providers env (truthy_text env.google_client_id))
      (slack_providers env (truthy_text env.slack_client_id))
      (google (truthy_text env.google_client_id)) (slack (truthy_text env.slack_client_id))
  where
    google : (o : Option Str) → All KeepsProtection (google_providers env o)
    google none = tt
    google (some id) = ((refl, refl, refl), ((refl, refl, refl), tt))

    slack : (o : Option Str) → All KeepsProtection (slack_providers env o)
    slack none = tt
    slack (some id) = ((refl, refl, refl), tt)

-- For every provider that the environment configures, the address that a flow opens carries the very
-- state that the pending record keeps and the S256 challenge of the verifier that it keeps: no
-- provider's own parameters replace them.
pub begun_flows-IsProtected :
    (env : Environment) (digest : Str → Str) (redirect_uri verifier state : Str) (now : ℕ)
    → All
        (λ config.
          IsProtected digest (begin_authorization digest config redirect_uri verifier state now))
        (providers_from_env env)
begun_flows-IsProtected env digest redirect_uri verifier state now =
    All-weaken KeepsProtection _
      (λ config keeps.
        begin_authorization-IsProtected digest config redirect_uri verifier state now keeps)
      (providers_from_env env) (providers-KeepProtection env)
