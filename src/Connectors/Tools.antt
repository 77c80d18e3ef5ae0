-- ===== src/Connectors/Tools.antt =====
-- packages/connectors/src/tools.ts: the tools of Drive, Gmail and Slack, but gmailRead, whose reading of
-- nested and HTML bodies is left out. The services answer as the parameters say: `none` where `fetch`
-- rejects, and a body is `none` where it is not JSON. A call is run alone, and the schemas of the
-- arguments, which the SDK checks, are left out.
pub mod Defs
pub mod Requests
pub mod Allowed
pub mod Gated
pub mod Drive
pub mod Mail
pub mod Tests
use open_source_harness.Common.{
  ℕ, Bool, true, false, not, Option, none, some, List, [], ◌∷◌, ◌++◌, Str, codes, str_eq, ends_with,
  decimal, join, take, length, map, any, find, ltb, if◌then◌else◌,
}
use open_source_harness.Common.Dict.{member}
use open_source_harness.Connectors.Tokens.{truthy_text}
use open_source_harness.Connectors.OAuth.{ProviderConfig, Reply, TokenRequest, or_else}
use open_source_harness.Connectors.OAuth.Access.{
  TokenStore, Access, usable, not_connected, failed, usable_access_token,
}
use open_source_harness.Connectors.Providers.{chat_write}
use open_source_harness.Connectors.Tools.Defs.{
  Confirmation, to_send, to_post, raw_mail, slack_message, ApiRequest, Effect, refreshed_token,
  asked, called, Response, DriveFile, MailSummary, GmailMessage, SlackReply, Api, Platform, Answer,
  refused, found_files, read_document, found_mail, found_messages, mail_sent, message_posted,
  throws, Fetched, failure, body, rejected, returned, fetch_json, shaped, escape_query,
  friendly_mime, found_file, or_none, is_native, get_request, mail_text,
}
use open_source_harness.Connectors.Tools.Requests.{
  drive_files_of, document_of, sent_mail, posted_message, messages_of, drive_search_request,
  drive_meta_request, drive_content_request, mail_list_request, mail_detail_request, summaries,
  slack_search_request, slack_history_request, send_request, post_request,
}

pub data ToolCall : Type 0 where
  drive_search : Str → ℕ → ToolCall
  drive_read : Str → ℕ → ToolCall
  gmail_search : Str → ℕ → ToolCall
  gmail_send : List Str → Str → Str → List Str → ToolCall
  slack_search : Str → ℕ → ToolCall
  slack_read_channel : Str → ℕ → ToolCall
  slack_post : Str → Str → ToolCall

abbrev pub Outcome : Type 0
Outcome = Answer × List Effect

-- `canSend` and `canPost`, for the provider that has them
abbrev pub can_send : ProviderConfig → Bool
can_send config =
    if str_eq config.id (codes "gmail")
    then any (λ scope. ends_with scope (codes "gmail.send")) config.scopes
    else false

abbrev pub can_post : ProviderConfig → Bool
can_post config =
    if str_eq config.id (codes "slack") then member chat_write config.scopes else false

-- `buildConnectorTools`: which tools the provider contributes.
unfoldable pub contributes : ProviderConfig → ToolCall → Bool
unfolding str_eq ends_with member
contributes config (drive_search query max_results) = str_eq config.id (codes "drive")
contributes config (drive_read file_id max_chars) = str_eq config.id (codes "drive")
contributes config (gmail_search query max_results) = str_eq config.id (codes "gmail")
contributes config (gmail_send to subject text copies) = can_send config
contributes config (slack_search query max_results) = str_eq config.id (codes "slack")
contributes config (slack_read_channel channel max_results) = str_eq config.id (codes "slack")
contributes config (slack_post channel text) = can_post config

abbrev pub service_name : ToolCall → Str
service_name (drive_search query max_results) = codes "Google Drive"
service_name (drive_read file_id max_chars) = codes "Google Drive"
service_name (gmail_search query max_results) = codes "Gmail"
service_name (gmail_send to subject text copies) = codes "Gmail"
service_name (slack_search query max_results) = codes "Slack"
service_name (slack_read_channel channel max_results) = codes "Slack"
service_name (slack_post channel text) = codes "Slack"

abbrev pub not_connected_to : Str → Answer
not_connected_to name = refused (
    codes "Not connected to "
    ++ name
    ++ codes ". Ask the user to connect it in the connectors panel.")

abbrev pub send_question : List Str → Str → Str → List Str → Confirmation
send_question to subject text cc =
    to_send (codes "Send an email to " ++ join (codes ", ") to) to cc subject text

abbrev pub post_question : Str → Str → Confirmation
post_question channel text = to_post (codes "Post to Slack channel " ++ channel) channel text

-- `count` is the length before the failed ones are filtered out
abbrev pub mail_found : ℕ → Option (List MailSummary) → Answer
mail_found count none = throws
mail_found count (some messages) = found_mail count messages

-- `if (!approved) return`, and what follows.
abbrev pub sent : Bool → Answer → ApiRequest → Confirmation → Outcome
sent true answer request question = (answer, asked question ∷ called request ∷ [])
sent false answer request question = (refused (codes "Denied by user"), asked question ∷ [])

module _ (platform : Platform) (config : ProviderConfig) (api : Api) (confirm : Confirmation → Bool)
    (token : Str) where
  abbrev pub drive_contents : Str → ℕ → Fetched DriveFile → Outcome
  drive_contents file_id max_chars (failure reason) =
      (refused reason, called (drive_meta_request platform token file_id) ∷ [])
  drive_contents file_id max_chars rejected =
      (throws, called (drive_meta_request platform token file_id) ∷ [])
  drive_contents file_id max_chars (body info) = (
    document_of max_chars info (api.drive_text (drive_content_request platform token file_id info)),
    called (drive_meta_request platform token file_id)
        ∷ called (drive_content_request platform token file_id info)
        ∷ [],
  )

  abbrev pub mail_details : ApiRequest → ℕ → Fetched (Option (List Str)) → Outcome
  mail_details listing max_results (failure reason) = (refused reason, called listing ∷ [])
  mail_details listing max_results rejected = (throws, called listing ∷ [])
  mail_details listing max_results (body ids) =
      let taken = take max_results (or_none ids) in
      (
        mail_found (length taken) (summaries platform token api config.display_name taken),
        called listing ∷ map (λ id. called (mail_detail_request platform token id)) taken,
      )

  abbrev pub drive_search_tool : Str → ℕ → Outcome
  drive_search_tool query max_results =
      let request = drive_search_request platform token query max_results in
      (
        shaped drive_files_of (fetch_json config.display_name (api.drive_files request)),
        called request ∷ [],
      )

  abbrev pub drive_read_tool : Str → ℕ → Outcome
  drive_read_tool file_id max_chars =
      drive_contents file_id max_chars (
        fetch_json config.display_name (api.drive_file (drive_meta_request platform token file_id)))

  abbrev pub gmail_search_tool : Str → ℕ → Outcome
  gmail_search_tool query max_results =
      let listing = mail_list_request platform token query max_results in
      mail_details listing max_results (fetch_json config.display_name (api.mail_ids listing))

  abbrev pub gmail_send_tool : List Str → Str → Str → List Str → Outcome
  gmail_send_tool to subject text copies =
      let request = send_request platform token to subject text copies in
      sent (confirm (send_question to subject text copies)) (sent_mail to (api.mail_send request))
        request (send_question to subject text copies)

  abbrev pub slack_search_tool : Str → ℕ → Outcome
  slack_search_tool query max_results =
      let request = slack_search_request platform token query max_results in
      (
        shaped (messages_of (codes "Slack refused the search"))
            (fetch_json config.display_name (api.slack request)),
        called request ∷ [],
      )

  abbrev pub slack_read_channel_tool : Str → ℕ → Outcome
  slack_read_channel_tool channel max_results =
      let request = slack_history_request platform token channel max_results in
      (
        shaped (messages_of (codes "Slack refused the read"))
            (fetch_json config.display_name (api.slack request)),
        called request ∷ [],
      )

  abbrev pub slack_post_tool : Str → Str → Outcome
  slack_post_tool channel text =
      let request = post_request platform token channel text in
      sent (confirm (post_question channel text)) (posted_message channel (api.slack request))
        request (post_question channel text)

  -- What a tool does with a token: its answer, and its questions and requests in their order.
  unfoldable pub run_tool : ToolCall → Outcome
  unfolding summaries
  run_tool (drive_search query max_results) = drive_search_tool query max_results
  run_tool (drive_read file_id max_chars) = drive_read_tool file_id max_chars
  run_tool (gmail_search query max_results) = gmail_search_tool query max_results
  run_tool (gmail_send to subject text copies) = gmail_send_tool to subject text copies
  run_tool (slack_search query max_results) = slack_search_tool query max_results
  run_tool (slack_read_channel channel max_results) = slack_read_channel_tool channel max_results
  run_tool (slack_post channel text) = slack_post_tool channel text

-- A call of a tool, with the replies, the user's answers and the clock that it meets.
pub record Turn : Type 0 where
  pub call : ToolCall
  pub refresh : TokenRequest → Option Reply
  pub api : Api
  pub confirm : Confirmation → Bool
  pub now : ℕ
  pub later : ℕ

module _ (platform : Platform) (config : ProviderConfig) where
  -- `if (!token) return NOT_CONNECTED(name)`
  abbrev pub with_token : Turn → Option Str → Outcome
  with_token turn none = (not_connected_to (service_name turn.call), [])
  with_token turn (some token) = run_tool platform config turn.api turn.confirm token turn.call

  abbrev pub with_access : Turn → Access → Outcome
  with_access turn (usable token) = with_token turn (truthy_text (some token))
  with_access turn not_connected = with_token turn none
  with_access turn failed = (throws, [])

  module _ (store : TokenStore) where
    -- The answer, the token store afterwards, and what was sent and asked. A tool that the provider
    -- does not contribute cannot be called: nothing happens.
    unfoldable pub call_tool :
        TokenStore.State store → Turn → (Answer × TokenStore.State store) × List Effect
    unfolding usable_access_token run_tool contributes
    call_tool state turn =
        let access = usable_access_token store turn.refresh state config turn.now turn.later in
        let outcome = with_access turn access.0.0 in
        if contributes config turn.call
        then ((outcome.0, access.0.1), map refreshed_token access.1 ++ outcome.1)
        else ((throws, state), [])
