-- ===== src/Session/Manager/Tests.antt =====
-- packages/session/src/manager.ts: a manager on the store of two threads, and instances of the theorems.
use open_source_harness.Common.{
  ◌≡◌, ◌≢◌, refl, none, some, false, List, [], ◌∷◌, ◌++◌, codes, str_eq, trim, join,
}
use open_source_harness.Common.Dict.{get, put, remove}
use open_source_harness.Gateway.Budget.Tests.{cents}
use open_source_harness.Store.{
  Tables, ThreadRecord, create_thread, get_thread, store_call, append_messages, insert_messages,
  message_rows, rows_of, next_seq, load_messages, parse_rows, order_by_seq, place,
  record_thread_cost, rename_thread, set_thread_model, delete_thread, store_calls, kept,
}
use open_source_harness.Store.Invariant.{store_calls-IsSound}
use open_source_harness.Store.Tests.{codec, reads_text, says, calls, stored, old}
use open_source_harness.Session.Approvals.Invariant.{init-IsConsistent}
use open_source_harness.Session.Manager.{
  Session, Opening, Manager, new_manager, collapse, title_text, store_message, begin_get,
  finish_get, close_session, forget_thread,
}
use open_source_harness.Protocol.Messages.{Message}
use open_source_harness.Session.Manager.Calls
use open_source_harness.Session.Manager.Calls.{Call, World, run}
use open_source_harness.Session.Manager.Linked.{IsLinked, run-IsLinked}
use open_source_harness.Session.Manager.Reopened.{OpensWith, begin_get-store_message}
use open_source_harness.Session.Manager.Races.{
  IsForgotten, forget_thread-IsForgotten, finish_get_replaces, deleted_opening_throws,
}

sealed : Unit {0}
unfolding get put remove str_eq trim join collapse title_text create_thread get_thread store_calls
    store_call append_messages insert_messages message_rows rows_of next_seq load_messages
    parse_rows order_by_seq place record_thread_cost rename_thread set_thread_model delete_thread
    store_message begin_get finish_get forget_thread run
sealed = tt

-- Two callers open the thread at once; one is told something, and the thread is deleted.
abbrev overlapping : List (Call cents codec)
overlapping =
    Calls.begins (codes "a") none 10
    ∷ Calls.begins (codes "a") (some (codes "Light")) 11
    ∷ Calls.finishes 1
    ∷ Calls.finishes 0
    ∷ Calls.says (codes "a") (says (codes "m5") (codes "So.")) 12
    ∷ Calls.forgets (codes "a")
    ∷ []

abbrev start : Manager
start = new_manager (some stored) none

start-IsLinked : IsLinked start
start-IsLinked = record {
  keyed = tt;
  once = tt;
  numbered = tt;
  sound = store_calls-IsSound cents codec calls;
}

abbrev world : World cents codec
world = (start, [])

run-IsLinked_example : IsLinked (run cents codec world overlapping).0
run-IsLinked_example = run-IsLinked cents codec world overlapping start-IsLinked

abbrev reopened : Opening
reopened = record { id = codes "a"; model_alias = codes "Standard"; initial_history = old }

abbrev one : Session
one = (finish_get start reopened).1

forget_thread-IsForgotten_example :
    IsForgotten cents codec
      (codes "a")
      one
      stored
      (finish_get start reopened).0
      (forget_thread (finish_get start reopened).0 (codes "a"))
unfolding sealed
forget_thread-IsForgotten_example =
    forget_thread-IsForgotten cents codec (finish_get start reopened).0 (codes "a") one stored refl
      refl init-IsConsistent

finish_get_replaces_example :
    let (m1, s1) = finish_get start reopened in
    let (m2, s2) = finish_get m1 reopened in
    (get (codes "a") m2.sessions ≡ some s2)
    × (s1.number ≢ s2.number)
    × ((forget_thread m2 (codes "a")).closed ≡ [] ++ close_session s2 ∷ [])
finish_get_replaces_example = finish_get_replaces start reopened reopened refl

deleted_opening_throws_example :
    let (after, session) = finish_get (forget_thread start (codes "a")) reopened in
    (get (codes "a") after.sessions ≡ some session)
    × (after.tables ≡ some (delete_thread stored (codes "a")))
    × (store_message cents codec
          (delete_thread stored (codes "a"))
          (codes "a")
          (says (codes "m5") (codes "So."))
          12
        ≡ none)
unfolding sealed
deleted_opening_throws_example =
    deleted_opening_throws cents codec start stored (delete_thread stored (codes "a")) reopened
      (says (codes "m5") (codes "So.")) 12 refl refl

abbrev thread : ThreadRecord
thread = record {
  id = codes "a";
  title = codes "New thread";
  model_alias = codes "Standard";
  created_at = 1;
  updated_at = 4;
}

abbrev asked : Message
asked = says (codes "m5") (codes "  So what ")

abbrev after_message : Tables
after_message = kept cents codec stored (store_message cents codec stored (codes "a") asked 12)

stores : store_message cents codec stored (codes "a") asked 12 ≡ some after_message
unfolding sealed
stores = refl

held : get_thread stored.threads (codes "a") ≡ some thread
unfolding sealed
held = refl

loads : load_messages cents codec stored (codes "a") ≡ some old
unfolding sealed
loads = refl

takes_title :
    get_thread after_message.threads (codes "a")
    ≡ some (record thread { title = codes "So what"; updated_at = 12 })
unfolding sealed
takes_title = refl

named : str_eq (trim (codes "a")) [] ≡ false
unfolding sealed
named = refl

begin_get-store_message_example :
    OpensWith cents codec
      (old ++ asked ∷ [])
      (begin_get cents codec (new_manager (some after_message) none) (codes "a") none 20)
unfolding sealed
begin_get-store_message_example =
    begin_get-store_message cents codec stored after_message (codes "a") asked 12 thread old
      (new_manager (some after_message) none) none 20 (reads_text _, tt)
      (store_calls-IsSound cents codec calls) held loads stores named refl refl
