-- ===== src/Session/Manager/Sound.antt =====
-- packages/session/src/manager.ts: what a manager's calls leave in the store is sound.
use mathlib.Core.Path.{subst}
use mathlib.Core.Option.{some-injective}
use open_source_harness.Common.{
  ℕ, ◌≡◌, inl, inr, Bool, true, false, Option, none, some, [], ◌∷◌, Str, str_eq, Bool-cases,
}
use open_source_harness.Common.Monad.{>>=-eq-some}
use open_source_harness.Protocol.Messages.{Message}
use open_source_harness.Protocol.Cost.{Amounts}
use open_source_harness.Store.{
  ThreadRecord, Tables, get_thread, create_thread, rename_thread, Codec, append_messages,
  created_in, StoreCall, creates, renames, sets_model, store_call,
}
use open_source_harness.Store.Invariant.{
  IsSound, store_call-IsSound, append_messages-IsSound, create_thread-IsSound,
}
use open_source_harness.Session.Manager.{
  title_text, is_user, new_thread, has_title, titled, retitled, store_message, created, switched,
}
use open_source_harness.Session.Manager.Calls.{}

module _ (amounts : Amounts) (codec : Codec amounts) where
  pub after_call :
      (tables : Tables) (call : StoreCall amounts codec)
      → IsSound tables
      → IsSound (store_call amounts codec tables call)
  after_call tables call w = store_call-IsSound amounts codec tables call w

  -- What `create_thread` makes, and what `on_message` leaves, is sound.
  pub create-IsSound :
      (tables : Tables) (id title alias : Option Str) (random : Str) (now : ℕ)
      → IsSound tables
      → IsSound (created_in amounts codec tables (create_thread tables id title alias random now))
  create-IsSound tables id title alias random now w =
      unfold store_call in after_call tables (creates id title alias random now) w

  pub rename-IsSound :
      (tables : Tables) (id title : Str) (now : ℕ)
      → IsSound tables
      → IsSound (rename_thread tables id title now)
  rename-IsSound tables id title now w =
      unfold store_call in after_call tables (renames id title now) w

  pub switched-IsSound :
      (tables : Tables) (id : Str) (alias : Option Str) (current : Str) (now : ℕ)
      → IsSound tables
      → IsSound (switched amounts codec tables id alias current now)
  switched-IsSound tables id none current now w = w
  switched-IsSound tables id (some alias) current now w = elim (Bool-cases (str_eq alias current)) [
    | inl same ↦ rw (same) w
    | inr other ↦ rw (other) (unfold store_call in after_call tables (sets_model id alias now) w)
  ]

  titled-IsSound :
      (tables : Tables) (id title : Str) (now : ℕ)
      → IsSound tables
      → IsSound (titled tables id title now)
  titled-IsSound tables id [] now w = w
  titled-IsSound tables id (c ∷ title) now w = rename-IsSound tables id _ now w

  retitled-IsSound :
      (asked unnamed : Bool) (tables : Tables) (id title : Str) (now : ℕ)
      → IsSound tables
      → IsSound (retitled asked unnamed tables id title now)
  retitled-IsSound true true tables id title now w = titled-IsSound tables id title now w
  retitled-IsSound true false tables id title now w = w
  retitled-IsSound false unnamed tables id title now w = w

  pub store_message-IsSound :
      (tables after : Tables) (id : Str) (message : Message) (now : ℕ)
      → store_message amounts codec tables id message now ≡ some after
      → IsSound tables
      → IsSound after
  unfolding store_message
  store_message-IsSound tables after id message now h w =
      let (appended, grown, rest) =
        >>=-eq-some (append_messages amounts codec tables id (message ∷ []) now) _ h in
      let w_now =
        append_messages-IsSound amounts codec tables appended id (message ∷ []) now grown w in
      subst IsSound (some-injective _ _ rest) (
        retitled-IsSound (is_user message.role)
          (has_title new_thread (get_thread appended.threads id)) appended id (title_text message)
          now w_now)

  pub created_row-IsSound :
      (tables : Tables) (id : Str) (alias : Option Str) (now : ℕ) (thread : Option ThreadRecord)
      (made : Tables × ThreadRecord)
      → created amounts codec tables id alias now thread ≡ some made
      → IsSound tables
      → IsSound made.0
  created_row-IsSound tables id alias now none made h w =
      create_thread-IsSound tables (some id) none alias id now made h w
  created_row-IsSound tables id alias now (some thread) made h w =
      subst (λ (m : Tables × ThreadRecord). IsSound m.0) (some-injective _ _ h) w
