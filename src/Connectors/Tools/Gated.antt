-- ===== src/Connectors/Tools/Gated.antt =====
-- packages/connectors/src/tools.ts: nothing is sent or posted but what the user has seen and allowed.
use mathlib.Core.Path.{subst}
use open_source_harness.Common.{
  ℕ, ◌≡◌, refl, ap, sym, ◌⊎◌, inl, inr, Bool, true, false, Option, List, [], ◌∷◌, ◌++◌, Str, In,
  here, there, In-nil, In-cons_inv, All, map, take, Bool-cases,
}
use open_source_harness.Connectors.OAuth.{ProviderConfig, TokenRequest}
use open_source_harness.Connectors.OAuth.Access.{
  TokenStore, Access, usable, not_connected, failed, usable_access_token,
}
use open_source_harness.Connectors.Tools.Defs.{
  Confirmation, to_send, to_post, Body, no_body, raw_mail, slack_message, ApiRequest, Effect,
  refreshed_token, asked, called, Api, Platform, Answer, Fetched, failure, body, rejected,
  DriveFile, mail_text, or_none,
}
use open_source_harness.Connectors.Tools.Requests.{mail_detail_request, mail_list_request}
use open_source_harness.Connectors.Tools.{
  ToolCall, drive_search, drive_read, gmail_search, gmail_send, slack_search, slack_read_channel,
  slack_post, contributes, run_tool, drive_contents, mail_details, sent, send_question,
  post_question, Turn, with_access, call_tool,
}

abbrev pub is_sender : ToolCall → Bool
is_sender (drive_search query n) = false
is_sender (drive_read file_id n) = false
is_sender (gmail_search query n) = false
is_sender (gmail_send to subject text copies) = true
is_sender (slack_search query n) = false
is_sender (slack_read_channel channel n) = false
is_sender (slack_post channel text) = true

-- An effect that writes nothing at a service.
abbrev pub Reads : Effect → Type 0
Reads (refreshed_token request) = Unit {0}
Reads (asked question) = Unit
Reads (called request) = request.body ≡ no_body

-- The question shows all of what the request would send.
abbrev pub Shows : Platform → Confirmation → Body → Type 0
Shows platform (to_send reason to cc subject text) sent =
    sent
    ≡ raw_mail (platform.base64url (mail_text to cc subject text)) (mail_text to cc subject text)
Shows platform (to_post reason channel text) sent = sent ≡ slack_message channel text

-- The request went out right after a question that shows what it sends, which the user allowed.
abbrev pub FollowsConsent : Platform → (Confirmation → Bool) → List Effect → ApiRequest → Type 0
FollowsConsent platform confirm log request =
    (before : List Effect) × (question : Confirmation) × (after : List Effect) × (log
      ≡ before ++ asked question ∷ called request ∷ after)
    × (confirm question ≡ true)
    × Shows platform question request.body

pub record IsGated (platform : Platform) (confirm : Confirmation → Bool) (log : List Effect)
    : Type 0 where
  pub gated :
      (request : ApiRequest)
      → In (called request) log
      → (request.body ≡ no_body) ⊎ FollowsConsent platform confirm log request

called-injective : {r s : ApiRequest} → called r ≡ called s → r ≡ s
called-injective h = cc h

module _ (platform : Platform) (confirm : Confirmation → Bool) where
  pub In-Reads :
      (request : ApiRequest) (log : List Effect)
      → All Reads log
      → In (called request) log
      → request.body ≡ no_body
  In-Reads request [] r i = absurd (In-nil i)
  In-Reads request (e ∷ log) (r, rs) (there i) = In-Reads request log rs i
  In-Reads request (e ∷ log) (r, rs) (here same) = subst Reads (sym same) r

  Reads-IsGated : (log : List Effect) → All Reads log → IsGated platform confirm log
  Reads-IsGated log r = record { gated = λ request i. inl (In-Reads request log r i) }

  pub refreshes-Reads : (requests : List TokenRequest) → All Reads (map refreshed_token requests)
  refreshes-Reads [] = tt
  refreshes-Reads (request ∷ requests) = (tt, refreshes-Reads requests)

  -- Effects that write nothing may come first.
  Reads-append :
      (before log : List Effect)
      → All Reads before
      → IsGated platform confirm log
      → IsGated platform confirm (before ++ log)
  Reads-append [] log r g = g
  Reads-append (e ∷ before) log (r, rs) g = record {
    gated = λ request i. elim (In-cons_inv i) [
      | inl same ↦ inl (subst Reads (sym same) r)
      | inr rest ↦ elim ((Reads-append before log rs g).gated request rest) [
        | inl reads ↦ inl reads
        | inr (earlier, question, after, split, allowed, shown) ↦
            inr (e ∷ earlier, question, after, ap (◌∷◌ e) split, allowed, shown)
      ]
    ];
  }

  sent-IsGated :
      (b : Bool) (answer : Answer) (request : ApiRequest) (question : Confirmation)
      → confirm question ≡ b
      → Shows platform question request.body
      → IsGated platform confirm (sent b answer request question).1
  sent-IsGated true answer request question allowed shown = record {
    gated = λ r i. elim (In-cons_inv i) [
      | inl same ↦ cc
      | inr rest ↦ elim (In-cons_inv rest) [
        | inl same ↦ inr (
            subst (FollowsConsent platform confirm (asked question ∷ called request ∷ []))
              (sym (called-injective same)) ([], question, [], refl, allowed, shown))
        | inr more ↦ absurd (In-nil more)
      ]
    ];
  }
  sent-IsGated false answer request question allowed shown = record {
    gated = λ r i. elim (In-cons_inv i) [ inl same ↦ cc | inr rest ↦ absurd (In-nil rest) ];
  }

  module _ (config : ProviderConfig) (api : Api) (token : Str) where
    drive_contents-Reads :
        (file_id : Str) (max_chars : ℕ) (f : Fetched DriveFile)
        → All Reads (drive_contents platform config api confirm token file_id max_chars f).1
    drive_contents-Reads file_id max_chars (failure reason) = (refl, tt)
    drive_contents-Reads file_id max_chars rejected = (refl, tt)
    drive_contents-Reads file_id max_chars (body info) = (refl, (refl, tt))

    details-Reads :
        (ids : List Str)
        → All Reads (map (λ id. called (mail_detail_request platform token id)) ids)
    details-Reads [] = tt
    details-Reads (id ∷ ids) = (refl, details-Reads ids)

    mail_details-Reads :
        (query : Str) (n : ℕ) (f : Fetched (Option (List Str)))
        → All Reads
            (mail_details platform config api confirm token
              (mail_list_request platform token query n)
              n
              f).1
    mail_details-Reads query n (failure reason) = (refl, tt)
    mail_details-Reads query n rejected = (refl, tt)
    mail_details-Reads query n (body ids) = (refl, details-Reads (take n (or_none ids)))

    run_tool-IsGated :
        (call : ToolCall)
        → IsGated platform confirm (run_tool platform config api confirm token call).1
    unfolding run_tool
    run_tool-IsGated (drive_search query n) = Reads-IsGated _ (refl, tt)
    run_tool-IsGated (drive_read file_id n) = Reads-IsGated _ (drive_contents-Reads file_id n _)
    run_tool-IsGated (gmail_search query n) = Reads-IsGated _ (mail_details-Reads query n _)
    run_tool-IsGated (gmail_send to subject text copies) =
        sent-IsGated (confirm (send_question to subject text copies)) _ _
          (send_question to subject text copies) refl refl
    run_tool-IsGated (slack_search query n) = Reads-IsGated _ (refl, tt)
    run_tool-IsGated (slack_read_channel channel n) = Reads-IsGated _ (refl, tt)
    run_tool-IsGated (slack_post channel text) =
        sent-IsGated (confirm (post_question channel text)) _ _ (post_question channel text) refl
          refl

    -- Only two of the tools write.
    pub run_tool-Reads :
        (call : ToolCall)
        → is_sender call ≡ false
        → All Reads (run_tool platform config api confirm token call).1
    unfolding run_tool
    run_tool-Reads (drive_search query n) h = (refl, tt)
    run_tool-Reads (drive_read file_id n) h = drive_contents-Reads file_id n _
    run_tool-Reads (gmail_search query n) h = mail_details-Reads query n _
    run_tool-Reads (gmail_send to subject text copies) h = cc
    run_tool-Reads (slack_search query n) h = (refl, tt)
    run_tool-Reads (slack_read_channel channel n) h = (refl, tt)
    run_tool-Reads (slack_post channel text) h = cc

module _ (platform : Platform) (config : ProviderConfig) where
  with_access-IsGated :
      (turn : Turn) (access : Access)
      → IsGated platform turn.confirm (with_access platform config turn access).1
  with_access-IsGated turn not_connected = Reads-IsGated platform turn.confirm [] tt
  with_access-IsGated turn failed = Reads-IsGated platform turn.confirm [] tt
  with_access-IsGated turn (usable []) = Reads-IsGated platform turn.confirm [] tt
  with_access-IsGated turn (usable (c ∷ token)) =
      run_tool-IsGated platform turn.confirm config turn.api (c ∷ token) turn.call

  pub call_tool-IsGated :
      (store : TokenStore) (state : TokenStore.State store) (turn : Turn)
      → IsGated platform turn.confirm (call_tool platform config store state turn).1
  unfolding call_tool
  call_tool-IsGated store state turn = elim (Bool-cases (contributes config turn.call)) [
    | inl offered ↦
        let access = usable_access_token store turn.refresh state config turn.now turn.later in
        rw (offered) (
          Reads-append platform turn.confirm (map refreshed_token access.1)
            (with_access platform config turn access.0.0).1
            (refreshes-Reads platform turn.confirm access.1) (with_access-IsGated turn access.0.0))
    | inr missing ↦ rw (missing) (Reads-IsGated platform turn.confirm [] tt)
  ]
