-- ===== src/Connectors/Tools/Requests.antt =====
-- packages/connectors/src/tools.ts: the requests of the tools, and what they make of a reply.
use open_source_harness.Common.{
  ℕ, Bool, true, false, Option, none, some, List, [], ◌∷◌, ◌++◌, Str, codes, str_eq, decimal, take,
  length, map, find, ltb, if◌then◌else◌,
}
use open_source_harness.Connectors.OAuth.{or_else}
use open_source_harness.Connectors.OAuth.Access.{}
use open_source_harness.Connectors.Tools.Defs.{
  raw_mail, slack_message, ApiRequest, Response, DriveFile, MailSummary, GmailMessage, SlackReply,
  Api, Platform, Answer, refused, found_files, read_document, found_messages, mail_sent,
  message_posted, throws, Fetched, failure, body, rejected, returned, fetch_json, escape_query,
  friendly_mime, found_file, or_none, is_native, get_request, mail_text,
}

-- Slack answers 200 where `ok` is false.
abbrev pub is_ok : Option Bool → Bool
is_ok none = false
is_ok (some answered) = answered

abbrev pub messages_of : Str → SlackReply → Answer
messages_of otherwise reply =
    if is_ok reply.answered_ok
    then found_messages (length (or_none reply.messages)) (or_none reply.messages)
    else refused (or_else reply.error otherwise)

abbrev pub drive_files_of : Option (List DriveFile) → Answer
drive_files_of files = found_files (length (or_none files)) (map found_file (or_none files))

abbrev pub document_text : ℕ → DriveFile → Option Str → Answer
document_text max_chars info none = throws
document_text max_chars info (some text) =
    read_document info.name (friendly_mime info.mime_type) (ltb max_chars (length text))
      (take max_chars text)

abbrev pub document_of : ℕ → DriveFile → Option (Response Str) → Answer
document_of max_chars info none = throws
document_of max_chars info (some response) =
    if response.http_ok
    then document_text max_chars info response.json
    else refused (returned (codes "Drive") response.status)

abbrev pub sent_mail : List Str → Option (Response (Unit {0})) → Answer
sent_mail to none = throws
sent_mail to (some response) =
    if response.http_ok then mail_sent to else refused (returned (codes "Gmail") response.status)

-- a body that is not JSON counts as one without fields
abbrev pub posted : Str → ℕ → Bool → Option SlackReply → Answer
posted channel status http_ok none = refused (returned (codes "Slack") status)
posted channel status true (some reply) =
    if is_ok reply.answered_ok
    then message_posted channel
    else refused (or_else reply.error (returned (codes "Slack") status))
posted channel status false (some reply) =
    refused (or_else reply.error (returned (codes "Slack") status))

abbrev pub posted_message : Str → Option (Response SlackReply) → Answer
posted_message channel none = throws
posted_message channel (some response) =
    posted channel response.status response.http_ok response.json

module _ (platform : Platform) where
  open platform use {encode_component, base64url, to_lower}

  abbrev pub has_name : Str → Option Str × Option Str → Bool
  has_name name (none, value) = false
  has_name name (some n, value) = str_eq (to_lower n) (to_lower name)

  abbrev pub value_of : Option (Option Str × Option Str) → Option Str
  value_of none = none
  value_of (some (name, value)) = value

  -- `header(message, name)`
  abbrev pub header : GmailMessage → Str → Option Str
  header message name = value_of (find (has_name name) message.headers)

  abbrev pub summary_of : Str → GmailMessage → MailSummary
  summary_of id message = record {
    id = id;
    from = header message (codes "From");
    subject = header message (codes "Subject");
    date = header message (codes "Date");
    snippet = message.snippet;
  }

  abbrev pub add_summary :
      Str → Fetched GmailMessage → Option (List MailSummary) → Option (List MailSummary)
  add_summary id fetched none = none
  add_summary id (failure reason) (some rest) = some rest
  add_summary id (body message) (some rest) = some (summary_of id message ∷ rest)
  add_summary id rejected (some rest) = none

  unfoldable pub drive_file_url : Str → Str
  drive_file_url file_id =
      codes "https://www.googleapis.com/drive/v3/files/" ++ encode_component file_id

  unfoldable pub drive_content_url : Str → DriveFile → Str
  unfolding drive_file_url
  drive_content_url file_id info =
      if is_native info.mime_type
      then drive_file_url file_id ++ codes "/export?mimeType=text/plain"
      else drive_file_url file_id ++ codes "?alt=media"

  unfoldable pub drive_query : Str → Str
  unfolding escape_query
  drive_query query =
      codes "fullText contains '" ++ escape_query query ++ codes "' and trashed = false"

  module _ (token : Str) where
    abbrev pub drive_search_request : Str → ℕ → ApiRequest
    drive_search_request query max_results =
        get_request (codes "https://www.googleapis.com/drive/v3/files")
          ((codes "q", drive_query query)
            ∷ (codes "pageSize", decimal max_results)
            ∷ (
              codes "fields",
              codes "files(id,name,mimeType,modifiedTime,webViewLink,owners(displayName))",
            )
            ∷ [])
          token

    abbrev pub drive_meta_request : Str → ApiRequest
    drive_meta_request file_id =
        get_request (drive_file_url file_id) ((codes "fields", codes "id,name,mimeType") ∷ []) token

    abbrev pub drive_content_request : Str → DriveFile → ApiRequest
    drive_content_request file_id info = get_request (drive_content_url file_id info) [] token

    abbrev pub mail_list_request : Str → ℕ → ApiRequest
    mail_list_request query max_results =
        get_request (codes "https://gmail.googleapis.com/gmail/v1/users/me/messages")
          ((codes "q", query) ∷ (codes "maxResults", decimal max_results) ∷ []) token

    abbrev pub mail_detail_request : Str → ApiRequest
    mail_detail_request id =
        get_request
          (codes "https://gmail.googleapis.com/gmail/v1/users/me/messages/" ++ encode_component id)
          ((codes "format", codes "metadata")
            ∷ (codes "metadataHeaders", codes "From")
            ∷ (codes "metadataHeaders", codes "Subject")
            ∷ (codes "metadataHeaders", codes "Date")
            ∷ [])
          token

    abbrev pub slack_search_request : Str → ℕ → ApiRequest
    slack_search_request query max_results =
        get_request (codes "https://slack.com/api/search.messages")
          ((codes "query", query) ∷ (codes "count", decimal max_results) ∷ []) token

    abbrev pub slack_history_request : Str → ℕ → ApiRequest
    slack_history_request channel max_results =
        get_request (codes "https://slack.com/api/conversations.history")
          ((codes "channel", channel) ∷ (codes "limit", decimal max_results) ∷ []) token

    abbrev pub send_request : List Str → Str → Str → List Str → ApiRequest
    send_request to subject text cc = record {
      url = codes "https://gmail.googleapis.com/gmail/v1/users/me/messages/send";
      query = [];
      token = token;
      body = raw_mail (base64url (mail_text to cc subject text)) (mail_text to cc subject text);
    }

    abbrev pub post_request : Str → Str → ApiRequest
    post_request channel text = record {
      url = codes "https://slack.com/api/chat.postMessage";
      query = [];
      token = token;
      body = slack_message channel text;
    }

    module _ (api : Api) (display_name : Str) where
      -- The details of the ids, all fetched at once; one that rejects rejects the whole.
      unfoldable pub summaries : List Str → Option (List MailSummary)
      summaries [] = some []
      summaries (id ∷ ids) =
          add_summary id (fetch_json display_name (api.mail_message (mail_detail_request id)))
            (summaries ids)
