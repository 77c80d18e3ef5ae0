-- ===== src/Connectors/Tools/Mail.antt =====
-- packages/connectors/src/tools.ts, gmailSearch: which messages are listed, and how many are said to be.
use mathlib.Core.Path.{subst}
use mathlib.Core.Option.{some-injective}
use open_source_harness.Common.{
  ℕ, suc, ◌+◌, ◌≤◌, ◌≡◌, refl, sym, Bool, Option, none, some, List, [], ◌∷◌, Str, length,
  length-take, take, All, All-weaken, In, here, there, Option-cases, inl, inr, arith,
}
use open_source_harness.Connectors.OAuth.{ProviderConfig}
use open_source_harness.Connectors.Tools.Defs.{
  Confirmation, MailSummary, GmailMessage, Api, Platform, found_mail, Fetched, failure, body,
  rejected, fetch_json, or_none,
}
use open_source_harness.Connectors.Tools.Requests.{
  add_summary, summaries, mail_detail_request, mail_list_request,
}
use open_source_harness.Connectors.Tools.{gmail_search, mail_found, mail_details, run_tool}

found_mail-injective :
    {n m : ℕ} {xs ys : List MailSummary} → found_mail n xs ≡ found_mail m ys → (n ≡ m) × (xs ≡ ys)
found_mail-injective h = (cc h, cc h)

-- Those of the fetches that came back with an error status.
abbrev count_failed : {T : Type 0} → Fetched T → ℕ → ℕ
count_failed (failure reason) n = suc n
count_failed (body value) n = n
count_failed rejected n = n

module _ (platform : Platform) (token : Str) (api : Api) (display_name : Str) where
  abbrev detail : Str → Fetched GmailMessage
  detail id = fetch_json display_name (api.mail_message (mail_detail_request platform token id))

  abbrev pub failed_ids : List Str → ℕ
  failed_ids [] = 0
  failed_ids (id ∷ ids) = count_failed (detail id) (failed_ids ids)

  -- each listed message is of one of the ids
  abbrev pub Listed : List Str → List MailSummary → Type 0
  Listed ids ms =
      (length ms + failed_ids ids ≡ length ids) × All (λ (m : MailSummary). In m.id ids) ms

  Listed_later :
      (id : Str) (ids : List Str) (ms : List MailSummary)
      → All (λ (m : MailSummary). In m.id ids) ms
      → All (λ (m : MailSummary). In m.id (id ∷ ids)) ms
  Listed_later id ids ms h = All-weaken _ _ (λ m i. there i) ms h

  add_summary-Listed :
      (id : Str) (ids : List Str) (f : Fetched GmailMessage) (rest : Option (List MailSummary))
      (ms : List MailSummary)
      → ((earlier : List MailSummary) → rest ≡ some earlier → Listed ids earlier)
      → add_summary platform id f rest ≡ some ms
      → (length ms + count_failed f (failed_ids ids) ≡ suc (length ids))
        × All (λ (m : MailSummary). In m.id (id ∷ ids)) ms
  add_summary-Listed id ids f none ms ih h = cc
  add_summary-Listed id ids rejected (some rest) ms ih h = cc
  add_summary-Listed id ids (failure reason) (some rest) ms ih h =
      let (count, from_) = ih ms h in (omega (arith, count), Listed_later id ids ms from_)
  add_summary-Listed id ids (body message) (some rest) ms ih h =
      let (count, from_) = ih rest refl in
      subst
        (λ ms.
          (length ms + failed_ids ids ≡ suc (length ids))
          × All (λ (m : MailSummary). In m.id (id ∷ ids)) ms)
        (some-injective _ _ h) (omega (arith, count), (here refl, Listed_later id ids rest from_))

  summaries-Listed :
      (ids : List Str) (ms : List MailSummary)
      → summaries platform token api display_name ids ≡ some ms
      → Listed ids ms
  unfolding summaries
  summaries-Listed [] ms h = subst (Listed []) (some-injective _ _ h) (refl, tt)
  summaries-Listed (id ∷ ids) ms h =
      add_summary-Listed id ids (detail id) (summaries platform token api display_name ids) ms
        (summaries-Listed ids) h

module _ (platform : Platform) (config : ProviderConfig) (api : Api) (confirm : Confirmation → Bool)
    (token : Str) where
  found_mail-Listed :
      (ids : List Str) (count : ℕ) (ms : List MailSummary)
      → mail_found (length ids) (summaries platform token api config.display_name ids)
        ≡ found_mail count ms
      → (count ≡ length ids) × Listed platform token api config.display_name ids ms
  found_mail-Listed ids count ms h =
      elim (Option-cases (summaries platform token api config.display_name ids)) [
        | inl rejects_ ↦ cc (rw rejects_ at h)
        | inr (found, eq) ↦
            let (same, listed) = found_mail-injective (rw eq at h) in
            (
              sym same,
              subst (Listed platform token api config.display_name ids) listed
                  (summaries-Listed platform token api config.display_name ids found eq),
            )
      ]

  details-Listed :
      (query : Str) (max_results count : ℕ) (ms : List MailSummary)
      (f : Fetched (Option (List Str)))
      → (mail_details platform config api confirm token
          (mail_list_request platform token query max_results)
          max_results
          f).0
        ≡ found_mail count ms
      → (ids : List Str) × (count ≡ length ids)
        × (count ≤ max_results)
        × Listed platform token api config.display_name ids ms
  details-Listed query n count ms (failure reason) h = cc
  details-Listed query n count ms rejected h = cc
  details-Listed query n count ms (body found) h =
      let (same, listed) = found_mail-Listed (take n (or_none found)) count ms h in
      (take n (or_none found), same, omega (arith, same, length-take n (or_none found)), listed)

  -- A search that finds mail lists at most as many messages as were asked for, each of one of the ids
  -- that the service named. The count that it states is the number of those ids, so it is the number
  -- of the listed messages and of those whose fetch failed.
  pub gmail_search-counts :
      (query : Str) (max_results count : ℕ) (ms : List MailSummary)
      → (run_tool platform config api confirm token (gmail_search query max_results)).0
        ≡ found_mail count ms
      → (ids : List Str) × (count ≡ length ids)
        × (count ≤ max_results)
        × Listed platform token api config.display_name ids ms
  unfolding run_tool
  gmail_search-counts query max_results count ms h = details-Listed query max_results count ms _ h
