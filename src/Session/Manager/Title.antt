-- ===== src/Session/Manager/Title.antt =====
-- packages/session/src/manager.ts, `onMessage`: the title that a thread takes from what is asked first.
use mathlib.Core.Path.{subst}
use mathlib.Core.Option.{some-injective}
use mathlib.Core.List.{reverse, reverse-cons}
use open_source_harness.Common.{
  ℕ, ◌≤◌, ◌≡◌, ◌≢◌, refl, sym, ap, ◌∙◌, ◌⊎◌, inl, inr, Bool, true, false, some, List, [], ◌∷◌, Str,
  str_eq, str_eq_sound, str_eq_refl, is_space, trim, trim_start, join, take, length, length-take,
  All, All-append, All-take, Bool-cases, arith, codes,
}
use open_source_harness.Common.Monad.{>>=-eq-some}
use open_source_harness.Protocol.Messages.{Message}
use open_source_harness.Protocol.Cost.{Amounts}
use open_source_harness.Store.{
  ThreadRecord, Tables, get_thread, update_threads, rename_thread, Codec, append_messages,
}
use open_source_harness.Store.Rows.{insert_messages-HasInserted}
use open_source_harness.Session.Manager.{
  collapse, title_text, texts_of, is_user, new_thread, has_title, titled, retitled, store_message,
}

-- A unit that is no white space, or the space itself.
abbrev IsPlain : ℕ → Type 0
IsPlain c = (is_space c ≡ false) ⊎ (c ≡ 32)

collapse-IsPlain : (spaced : Bool) (s : Str) → All IsPlain (collapse spaced s)
unfolding collapse
collapse-IsPlain spaced [] = tt
collapse-IsPlain true (c ∷ s) = elim (Bool-cases (is_space c)) [
  | inl space ↦ rw (space) (collapse-IsPlain true s)
  | inr mark ↦ rw (mark) (inl mark, collapse-IsPlain false s)
]
collapse-IsPlain false (c ∷ s) = elim (Bool-cases (is_space c)) [
  | inl space ↦ rw (space) (inr refl, collapse-IsPlain true s)
  | inr mark ↦ rw (mark) (inl mark, collapse-IsPlain false s)
]

trim_start-All : (P : ℕ → Type 0) (s : Str) → All P s → All P (trim_start s)
unfolding trim_start
trim_start-All P [] h = tt
trim_start-All P (c ∷ s) (h, hs) = elim (Bool-cases (is_space c)) [
  | inl space ↦ rw (space) (trim_start-All P s hs)
  | inr mark ↦ rw (mark) (h, hs)
]

All-reverse : (P : ℕ → Type 0) (s : Str) → All P s → All P (reverse s)
All-reverse P [] h = tt
All-reverse P (c ∷ s) (h, hs) =
    subst (All P) (sym (reverse-cons c s))
      (All-append P (reverse s) (c ∷ []) (All-reverse P s hs) (h, tt))

title_text-IsPlain : (message : Message) → All IsPlain (title_text message)
unfolding title_text trim
title_text-IsPlain message =
    let raw = collapse false (join (codes " ") (texts_of message.parts)) in
    All-reverse IsPlain _ (
      trim_start-All IsPlain _ (
        All-reverse IsPlain _ (
          trim_start-All IsPlain raw
            (collapse-IsPlain false (join (codes " ") (texts_of message.parts))))))

-- The row of a thread that is changed under its id.
get_thread-update :
    (change : ThreadRecord → ThreadRecord) (id : Str) (threads : List ThreadRecord)
    (t : ThreadRecord)
    → ((r : ThreadRecord) → (change r).id ≡ r.id)
    → get_thread threads id ≡ some t
    → get_thread (update_threads change id threads) id ≡ some (change t)
unfolding get_thread
get_thread-update change id [] t same h = cc
get_thread-update change id (r ∷ threads) t same h = elim (Bool-cases (str_eq r.id id)) [
  | inl at_ ↦
      let changed_at : str_eq (change r).id id ≡ true = ap (λ x. str_eq x id) (same r) ∙ at_ in
      rw (at_) (rw (changed_at) (ap some (ap change (some-injective _ _ (rw at_ at h)))))
  | inr other ↦ rw (other) (rw (other) (get_thread-update change id threads t same (rw other at h)))
]

-- The title is kept where the message is not the user's, has no text, or the thread already has a
-- title of its own. Otherwise the title is the first sixty units of the message's text, trimmed and on
-- one line.
pub data IsRetitled (before after : ThreadRecord) (message : Message) : Type 0 where
  kept_title :
      after.title ≡ before.title
      → (is_user message.role ≡ false) ⊎ (before.title ≢ new_thread) ⊎ (title_text message ≡ [])
      → IsRetitled before after message
  took_title :
      before.title ≡ new_thread
      → is_user message.role ≡ true
      → title_text message ≢ []
      → after.title ≡ take 60 (title_text message)
      → after.title ≢ []
      → length after.title ≤ 60
      → All IsPlain after.title
      → IsRetitled before after message

module _ (id : Str) (message : Message) (before : ThreadRecord) (now : ℕ) where
  abbrev Found : Tables → Type 0
  Found tables =
      (t : ThreadRecord) × (get_thread tables.threads id ≡ some t) × IsRetitled before t message

  renamed-Found :
      (tables : Tables) (t : ThreadRecord) (title : Str)
      → title_text message ≡ title
      → get_thread tables.threads id ≡ some t
      → t.title ≡ before.title
      → before.title ≡ new_thread
      → is_user message.role ≡ true
      → All IsPlain title
      → Found (titled tables id title now)
  unfolding rename_thread
  renamed-Found tables t [] is_ found same new asked plain =
      (t, found, kept_title same (inr (inr is_)))
  renamed-Found tables t (c ∷ title) is_ found same new asked plain = (
    record t { title = take 60 (c ∷ title); updated_at = now },
    get_thread-update (λ r. record r { title = take 60 (c ∷ title); updated_at = now }) id
        tables.threads t (λ r. refl) found,
    took_title new asked (λ h. cc) (ap (take 60) (sym is_)) (λ h. ground arith)
        (omega (arith, length-take 60 (c ∷ title))) (All-take IsPlain 60 (c ∷ title) plain),
  )

  retitled-Found :
      (asked unnamed : Bool) (tables : Tables) (t : ThreadRecord)
      → get_thread tables.threads id ≡ some t
      → t.title ≡ before.title
      → is_user message.role ≡ asked
      → has_title new_thread (some t) ≡ unnamed
      → Found (retitled asked unnamed tables id (title_text message) now)
  retitled-Found true true tables t found same asked unnamed =
      renamed-Found tables t (title_text message) refl found same
        (sym same ∙ str_eq_sound t.title new_thread unnamed) asked (title_text-IsPlain message)
  retitled-Found true false tables t found same asked named =
      (t, found, kept_title same (inr (inl (λ e. other (same ∙ e) named))))
    where
      other : {s : Str} → s ≡ new_thread → str_eq s new_thread ≡ false → ⊥
      other {s} e h = absurd (cc (sym h ∙ ap (λ x. str_eq x new_thread) e ∙ str_eq_refl new_thread))
  retitled-Found false unnamed tables t found same asked h = (t, found, kept_title same (inl asked))

pub store_message-IsRetitled :
    (amounts : Amounts) (codec : Codec amounts) (tables after : Tables) (id : Str)
    (message : Message) (now : ℕ) (before : ThreadRecord)
    → store_message amounts codec tables id message now ≡ some after
    → get_thread tables.threads id ≡ some before
    → (t : ThreadRecord) × (get_thread after.threads id ≡ some t) × IsRetitled before t message
unfolding store_message append_messages
store_message-IsRetitled amounts codec tables after id message now before h held =
    let (appended, grown, rest) =
      >>=-eq-some (append_messages amounts codec tables id (message ∷ []) now) _ h in
    let done =
      insert_messages-HasInserted amounts codec tables appended id (message ∷ []) now grown in
    let found : get_thread appended.threads id ≡ some (record before { updated_at = now }) =
      ap (λ (t : Tables). get_thread t.threads id) done.tables_after
      ∙ get_thread-update (λ r. record r { updated_at = now }) id tables.threads before (λ r. refl)
          held in
    subst (Found id message before now) (some-injective _ _ rest) (
      retitled-Found id message before now (is_user message.role)
        (has_title new_thread (get_thread appended.threads id)) appended
        (record before { updated_at = now }) found refl refl
        (ap (has_title new_thread) (sym found)))
