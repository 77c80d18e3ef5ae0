-- ===== src/Connectors/Tools/Defs.antt =====
-- packages/connectors/src/tools.ts: what the tools send, ask and answer.
use open_source_harness.Common.{
  ℕ, Bool, false, Option, none, some, List, [], ◌∷◌, ◌++◌, Str, codes, str_eq, starts_with, decimal,
  join, ◌==◌, if◌then◌else◌,
}
use open_source_harness.Connectors.OAuth.{Fields, TokenRequest}
use open_source_harness.Connectors.OAuth.Access.{}

-- What `confirm` shows to the user.
pub data Confirmation : Type 0 where
  to_send : Str → List Str → List Str → Str → Str → Confirmation
  to_post : Str → Str → Str → Confirmation

pub data Body : Type 0 where
  no_body : Body
  -- `{ raw }`, and the text that is encoded in it
  raw_mail : Str → Str → Body
  slack_message : Str → Str → Body

-- A request of a service; a body makes it a POST.
pub record ApiRequest : Type 0 where
  pub url : Str
  pub query : Fields
  pub token : Str
  pub body : Body

pub data Effect : Type 0 where
  refreshed_token : TokenRequest → Effect
  asked : Confirmation → Effect
  called : ApiRequest → Effect

pub record Response (T : Type 0) : Type 0 where
  pub http_ok : Bool
  pub status : ℕ
  pub json : Option T

pub record DriveFile : Type 0 where
  pub id : Option Str
  pub name : Option Str
  pub mime_type : Option Str
  pub modified_time : Option Str
  pub web_view_link : Option Str
  pub owners : List (Option Str)

pub record MailSummary : Type 0 where
  pub id : Str
  pub from : Option Str
  pub subject : Option Str
  pub date : Option Str
  pub snippet : Option Str

pub record GmailMessage : Type 0 where
  pub headers : List (Option Str × Option Str)
  pub snippet : Option Str

pub record SlackMatch : Type 0 where
  pub channel : Option Str
  pub from : Option Str
  pub ts : Option Str
  pub permalink : Option Str
  pub content : Option Str

-- `ok`, `error` and, where they are there, the messages
pub record SlackReply : Type 0 where
  pub answered_ok : Option Bool
  pub error : Option Str
  pub messages : Option (List SlackMatch)

pub record Api : Type 0 where
  pub drive_files : ApiRequest → Option (Response (Option (List DriveFile)))
  pub drive_file : ApiRequest → Option (Response DriveFile)
  -- the body as text
  pub drive_text : ApiRequest → Option (Response Str)
  pub mail_ids : ApiRequest → Option (Response (Option (List Str)))
  pub mail_message : ApiRequest → Option (Response GmailMessage)
  pub mail_send : ApiRequest → Option (Response (Unit {0}))
  pub slack : ApiRequest → Option (Response SlackReply)

-- `encodeURIComponent`, base64url of UTF-8, and `toLowerCase`
pub record Platform : Type 0 where
  pub encode_component : Str → Str
  pub base64url : Str → Str
  pub to_lower : Str → Str

pub record FoundFile : Type 0 where
  pub id : Option Str
  pub name : Option Str
  pub kind : Str
  pub modified : Option Str
  pub link : Option Str
  pub owner : Option Str

pub data Answer : Type 0 where
  -- `{ ok: false, reason }`
  refused : Str → Answer
  found_files : ℕ → List FoundFile → Answer
  -- name, type, truncated, content
  read_document : Option Str → Str → Bool → Str → Answer
  found_mail : ℕ → List MailSummary → Answer
  found_messages : ℕ → List SlackMatch → Answer
  mail_sent : List Str → Answer
  message_posted : Str → Answer
  throws : Answer

-- `error.reason` of a body that is not there, or the body
pub data Fetched (T : Type 0) : Type 0 where
  failure : Str → Fetched T
  body : T → Fetched T
  rejected : Fetched T

abbrev pub returned : Str → ℕ → Str
returned who status = who ++ codes " returned " ++ decimal status

abbrev pub read_json : {T : Type 0} → Option T → Fetched T
read_json none = rejected
read_json (some value) = body value

-- `fetchJson`
abbrev pub fetch_json : {T : Type 0} → Str → Option (Response T) → Fetched T
fetch_json who none = rejected
fetch_json who (some response) =
    if response.http_ok then read_json response.json else failure (returned who response.status)

abbrev pub shaped : {T : Type 0} → (T → Answer) → Fetched T → Answer
shaped shape (failure reason) = refused reason
shaped shape (body value) = shape value
shaped shape rejected = throws

-- `query.replace(/\\/g, '\\\\').replace(/'/g, "\\'")`: each replacement is a pass over the text.
unfoldable pub replace_unit : ℕ → Str → Str → Str
replace_unit u by [] = []
replace_unit u by (c ∷ s) =
    let rest = replace_unit u by s in if c == u then by ++ rest else c ∷ rest

unfoldable pub escape_query : Str → Str
unfolding replace_unit
escape_query query = replace_unit b'\'' (codes "\\'") (replace_unit b'\\' (codes "\\\\") query)

unfoldable pub friendly_mime : Option Str → Str
unfolding str_eq
friendly_mime none = codes "file"
friendly_mime (some []) = codes "file"
friendly_mime (some (c ∷ m)) =
    if str_eq (c ∷ m) (codes "application/vnd.google-apps.document")
    then codes "Google Doc"
    else if str_eq (c ∷ m) (codes "application/vnd.google-apps.spreadsheet")
    then codes "Google Sheet"
    else if str_eq (c ∷ m) (codes "application/vnd.google-apps.presentation")
    then codes "Google Slides"
    else if str_eq (c ∷ m) (codes "application/vnd.google-apps.folder")
    then codes "folder"
    else if str_eq (c ∷ m) (codes "application/pdf")
    then codes "PDF"
    else c ∷ m

abbrev pub first_owner : List (Option Str) → Option Str
first_owner [] = none
first_owner (owner ∷ owners) = owner

abbrev pub found_file : DriveFile → FoundFile
found_file file = record {
  id = file.id;
  name = file.name;
  kind = friendly_mime file.mime_type;
  modified = file.modified_time;
  link = file.web_view_link;
  owner = first_owner file.owners;
}

abbrev pub or_none : {T : Type 0} → Option (List T) → List T
or_none none = []
or_none (some values) = values

abbrev pub is_native : Option Str → Bool
is_native none = false
is_native (some mime) = starts_with mime (codes "application/vnd.google-apps")

abbrev pub get_request : Str → Fields → Str → ApiRequest
get_request url query token = record { url = url; query = query; token = token; body = no_body }

abbrev pub cc_lines : List Str → List Str
cc_lines [] = []
cc_lines (c ∷ cc) = (codes "Cc: " ++ join (codes ", ") (c ∷ cc)) ∷ []

-- The text of a mail: the headers, an empty line and the body.
unfoldable pub mail_text : List Str → List Str → Str → Str → Str
unfolding join
mail_text to cc subject text = join (13 ∷ 10 ∷ []) (
    (codes "To: " ++ join (codes ", ") to)
    ∷ (cc_lines cc
        ++ (codes "Subject: " ++ subject)
          ∷ codes "Content-Type: text/plain; charset=UTF-8"
          ∷ []
          ∷ text
          ∷ []))
