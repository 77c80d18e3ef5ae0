-- ===== src/Session/Manager/Reopened.antt =====
-- packages/session/src/manager.ts: a conversation that is opened again, in another process or after its
-- session is gone.
use mathlib.Core.Path.{subst}
use mathlib.Core.Option.{some-injective}
use open_source_harness.Common.{
  ℕ, ◌≡◌, refl, sym, ap, ◌∙◌, inl, inr, Bool, true, false, Option, none, some, List, [], ◌∷◌, ◌++◌,
  Str, str_eq, trim, Bool-cases,
}
use open_source_harness.Common.Monad.{>>=-eq-some}
use open_source_harness.Common.Dict.{get}
use open_source_harness.Protocol.Messages.{Message}
use open_source_harness.Protocol.Cost.{Amounts}
use open_source_harness.Store.{
  ThreadRecord, Tables, get_thread, rename_thread, set_thread_model, Codec, append_messages,
  load_messages,
}
use open_source_harness.Store.Rows.{ReadsBack}
use open_source_harness.Store.Invariant.{IsSound}
use open_source_harness.Store.History.{append_messages-load}
use open_source_harness.Session.Manager.{
  Opening, Manager, Began, opens, truthy, is_user, has_title, new_thread, title_text, retitled,
  store_message, switched, with_history, with_store, begin_get,
}
use open_source_harness.Session.Manager.Title.{store_message-IsRetitled}

module _ (amounts : Amounts) (codec : Codec amounts) where
  retitled-messages :
      (asked unnamed : Bool) (tables : Tables) (id title : Str) (now : ℕ)
      → load_messages amounts codec (retitled asked unnamed tables id title now) id
        ≡ load_messages amounts codec tables id
  unfolding rename_thread load_messages
  retitled-messages true true tables id [] now = refl
  retitled-messages true true tables id (c ∷ title) now = refl
  retitled-messages true false tables id title now = refl
  retitled-messages false unnamed tables id title now = refl

  switched-messages :
      (tables : Tables) (id : Str) (alias : Option Str) (current : Str) (now : ℕ)
      → load_messages amounts codec (switched amounts codec tables id alias current now) id
        ≡ load_messages amounts codec tables id
  unfolding set_thread_model load_messages
  switched-messages tables id none current now = refl
  switched-messages tables id (some alias) current now = elim (Bool-cases (str_eq alias current)) [
    | inl same ↦ rw (same) refl
    | inr other ↦ rw (other) refl
  ]

  -- An opening with this history.
  abbrev pub OpensWith : List Message → Began → Type 0
  OpensWith history began =
      (opening : Opening) × (left : Manager) × (began ≡ opens opening left)
      × (opening.initial_history ≡ history)

  with_history-OpensWith :
      (manager : Manager) (id : Str) (alias : Option Str) (stored : Str) (tables : Tables)
      (o : Option (List Message)) (history : List Message)
      → o ≡ some history
      → OpensWith history (with_history amounts codec manager id alias stored tables o)
  with_history-OpensWith manager id alias stored tables o history h =
      subst (λ o. OpensWith history (with_history amounts codec manager id alias stored tables o))
        (sym h) (_, _, refl, refl)

  begin_get-OpensWith :
      (manager : Manager) (tables : Tables) (id : Str) (alias : Option Str) (now : ℕ)
      (thread : ThreadRecord) (history : List Message)
      → str_eq (trim id) [] ≡ false
      → get id manager.sessions ≡ none
      → manager.tables ≡ some tables
      → get_thread tables.threads id ≡ some thread
      → load_messages amounts codec tables id ≡ some history
      → OpensWith history (begin_get amounts codec manager id alias now)
  unfolding begin_get
  begin_get-OpensWith manager tables id alias now thread history named absent stored found loaded =
      rw (named) (
        rw (absent) (
          subst (λ o. OpensWith history (with_store amounts codec manager id alias now o))
            (sym stored)
            (rw (found) (
              with_history-OpensWith manager id alias thread.model_alias _ _ history
                (switched-messages tables id (truthy alias) thread.model_alias now ∙ loaded)))))

  -- What is said in a thread is there when the thread is opened again: where a message was stored in a
  -- thread of a sound store whose history could be read, the next opening of that thread, in a manager
  -- on that store that holds no session for it, has the history of before with the message at its end,
  -- if what JSON.stringify prints of the message's parts is parsed to the same parts and the id is not
  -- blank.
  pub begin_get-store_message :
      (tables after : Tables) (id : Str) (message : Message) (now : ℕ) (thread : ThreadRecord)
      (old : List Message) (manager : Manager) (alias : Option Str) (later : ℕ)
      → ReadsBack amounts codec (message ∷ [])
      → IsSound tables
      → get_thread tables.threads id ≡ some thread
      → load_messages amounts codec tables id ≡ some old
      → store_message amounts codec tables id message now ≡ some after
      → str_eq (trim id) [] ≡ false
      → get id manager.sessions ≡ none
      → manager.tables ≡ some after
      → OpensWith (old ++ message ∷ []) (begin_get amounts codec manager id alias later)
  unfolding store_message
  begin_get-store_message tables after id message now thread old manager alias later laws w found
        was h named absent stored =
      let (appended, grown, rest) =
        >>=-eq-some (append_messages amounts codec tables id (message ∷ []) now) _ h in
      let (row, there_, how) =
        store_message-IsRetitled amounts codec tables after id message now thread h found in
      let loaded : load_messages amounts codec after id ≡ some (old ++ message ∷ []) =
        ap (λ t. load_messages amounts codec t id) (sym (some-injective _ _ rest))
        ∙ retitled-messages (is_user message.role)
            (has_title new_thread (get_thread appended.threads id)) appended id (title_text message)
            now
        ∙ (append_messages-load amounts codec tables appended id old (message ∷ []) now laws w was
            grown).grown in
      begin_get-OpensWith manager after id alias later row (old ++ message ∷ []) named absent stored
        there_ loaded
