-- ===== src/Session/Manager/Races.antt =====
-- packages/session/src/manager.ts: what a deletion leaves, and what calls that overlap leave.
use mathlib.Core.Option.{some-injective}
use open_source_harness.Common.{
  ℕ, ◌≡◌, ◌≢◌, refl, sym, ap, ◌∙◌, inl, inr, false, none, some, [], ◌∷◌, ◌++◌, Str, str_eq, All,
  arith, Option-cases,
}
use open_source_harness.Common.Dict.{get, put, keys, get-remove, get-remove_self, get-put_self}
use open_source_harness.Protocol.Messages.{Message}
use open_source_harness.Protocol.Cost.{Amounts}
use open_source_harness.Store.{Tables, get_thread, Codec, append_messages, delete_thread}
use open_source_harness.Store.Rows.{insert_messages-HasInserted}
use open_source_harness.Store.History.{Deleted, delete_thread-Deleted}
use open_source_harness.Session.Approvals.{denied}
use open_source_harness.Session.Approvals.Invariant.{IsConsistent}
use open_source_harness.Session.Approvals.Shutdown.{deny_all_settles}
use open_source_harness.Session.Manager.{
  Session, Opening, Manager, store_message, finish_get, close_session, close_found, forget_thread,
  without_thread,
}

-- What is left of a thread that is deleted.
pub record IsForgotten (amounts : Amounts) (codec : Codec amounts) (id : Str) (session : Session)
    (tables : Tables) (before after : Manager) : Type 0 where
  pub no_session : get id after.sessions ≡ none
  pub rows : (left : Tables) × (after.tables ≡ some left) × Deleted amounts codec tables left id
  -- the session that was there is closed, with every consent that it waited for denied
  pub closed :
      (s : Session) × (after.closed ≡ before.closed ++ s ∷ [])
      × (s.number ≡ session.number)
      × (s.approvals.pending ≡ [])
      × All
          (λ waiting. get waiting s.approvals.settled ≡ some denied)
          (keys session.approvals.pending)
  pub others :
      (other : Str) → str_eq id other ≡ false → get other after.sessions ≡ get other before.sessions

-- A thread that is deleted is gone as a whole: the manager has no session for it, the store has no row,
-- no message and no cost of it, and every other thread and session is as it was. The session that was
-- open on it is closed, and each consent that it waited for is denied, so that nothing waits for ever.
pub forget_thread-IsForgotten :
    (amounts : Amounts) (codec : Codec amounts) (manager : Manager) (id : Str) (session : Session)
    (tables : Tables)
    → get id manager.sessions ≡ some session
    → manager.tables ≡ some tables
    → IsConsistent session.approvals
    → IsForgotten amounts codec id session tables manager (forget_thread manager id)
unfolding forget_thread close_session
forget_thread-IsForgotten amounts codec manager id session tables held stored consistent =
    let (quiet, all_denied) = deny_all_settles session.approvals consistent in
    record {
      no_session = get-remove_self id manager.sessions;
      rows = (
        delete_thread tables id,
        ap (without_thread id) stored,
        delete_thread-Deleted amounts codec tables id,
      );
      closed = (
        close_session session,
        ap (λ o. manager.closed ++ close_found o) held,
        refl,
        quiet,
        all_denied,
      );
      others = λ other differs. rw (get-remove id other manager.sessions, differs) refl;
    }

-- Where two openings of one thread overlap, each of the two callers is given a session of its own, and the
-- one that ends last takes the place of the other in the map. The deletion of the thread then closes
-- that session only.
pub finish_get_replaces :
    (manager : Manager) (first second : Opening)
    → first.id ≡ second.id
    → let (m1, s1) = finish_get manager first in
      let (m2, s2) = finish_get m1 second in
      (get first.id m2.sessions ≡ some s2)
      × (s1.number ≢ s2.number)
      × ((forget_thread m2 first.id).closed ≡ manager.closed ++ close_session s2 ∷ [])
unfolding finish_get forget_thread
finish_get_replaces manager first second same =
    let m1 = (finish_get manager first).0 in
    let s2 = (finish_get m1 second).1 in
    let found : get first.id (put second.id s2 m1.sessions) ≡ some s2 =
      ap (λ k. get k (put second.id s2 m1.sessions)) same ∙ get-put_self second.id s2 m1.sessions in
    (found, λ e. omega (arith, e), ap (λ o. manager.closed ++ close_found o) found)

-- A message cannot be appended to a thread that has no row.
append_messages_throws :
    (amounts : Amounts) (codec : Codec amounts) (tables : Tables) (id : Str) (message : Message)
    (now : ℕ)
    → get_thread tables.threads id ≡ none
    → append_messages amounts codec tables id (message ∷ []) now ≡ none
unfolding append_messages
append_messages_throws amounts codec tables id message now missing =
    elim (Option-cases (append_messages amounts codec tables id (message ∷ []) now)) [
      | inl throws_ ↦ throws_
      | inr (after, h) ↦
          let done =
            insert_messages-HasInserted amounts codec tables after id (message ∷ []) now h in
          cc (missing, done.found)
    ]

-- Where a thread is deleted while an opening of it waits, the session that the opening makes is in the map
-- though the thread has no row, and no message of it can be stored: the store throws.
pub deleted_opening_throws :
    (amounts : Amounts) (codec : Codec amounts) (manager : Manager) (tables left : Tables)
    (opening : Opening) (message : Message) (now : ℕ)
    → manager.tables ≡ some tables
    → (forget_thread manager opening.id).tables ≡ some left
    → let (after, session) = finish_get (forget_thread manager opening.id) opening in
      (get opening.id after.sessions ≡ some session)
      × (after.tables ≡ some left)
      × (store_message amounts codec left opening.id message now ≡ none)
unfolding finish_get forget_thread store_message
deleted_opening_throws amounts codec manager tables left opening message now stored deleted =
    let gone : left ≡ delete_thread tables opening.id =
      some-injective _ _ (sym deleted ∙ ap (without_thread opening.id) stored) in
    let missing : get_thread left.threads opening.id ≡ none =
      ap (λ (t : Tables). get_thread t.threads opening.id) gone
      ∙ (delete_thread-Deleted amounts codec tables opening.id).gone in
    (
      get-put_self opening.id _ _,
      deleted,
      rw (append_messages_throws amounts codec left opening.id message now missing) refl,
    )
