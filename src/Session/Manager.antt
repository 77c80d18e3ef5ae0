-- ===== src/Session/Manager.antt =====
-- packages/session/src/manager.ts: the sessions of a process, over the durable store. `get` runs in two
-- parts, before its first `await` and after its last, since other calls run between them; an opening
-- that fails between them never ends. A session is told from another by the number of its making.
-- `deleteThread` and `dispose` wait for the disposal of workspaces in their midst; here each is one step,
-- so a call that runs during that wait is left out. Workspaces, the gateway, connectors and tools are left out.
pub mod Title
pub mod Calls
pub mod Linked
pub mod Sound
pub mod Reopened
pub mod Races
pub mod Tests
use open_source_harness.Common.{
  ℕ, suc, ◌+◌, Bool, true, false, Option, none, some, List, [], ◌∷◌, ◌++◌, Str, codes, str_eq, trim,
  join, is_space, take, map, ◌==◌, if◌then◌else◌,
}
use open_source_harness.Common.Monad.{◌>>=◌}
use open_source_harness.Common.Dict.{get, put, remove, values}
use open_source_harness.Protocol.Messages.{Part, text, Role, user, Message}
use open_source_harness.Protocol.Cost.{Amounts, CostBuckets}
use open_source_harness.Store.{
  ThreadRecord, Tables, get_thread, create_thread, rename_thread, set_thread_model, delete_thread,
  Codec, append_messages, load_messages, record_thread_cost, or_default,
}
use open_source_harness.Session.Approvals.{ApprovalGate, init, deny_all}

pub record Session : Type 0 where
  pub id : Str
  pub number : ℕ
  pub model_alias : Str
  pub initial_history : List Message
  pub approvals : ApprovalGate

-- what `get` has read of the store when it first waits
pub record Opening : Type 0 where
  pub id : Str
  pub model_alias : Str
  pub initial_history : List Message

-- `tables` is the configured store; `closed` are the sessions whose workspaces were disposed of.
pub record Manager : Type 0 where
  pub sessions : List (Str × Session)
  pub tables : Option Tables
  pub default_model_alias : Option Str
  pub made : ℕ
  pub closed : List Session

-- `throws` is an exception, of the check of the id or of the store; `opens` goes on to wait. Both carry
-- what is left in the store.
pub data Began : Type 0 where
  throws : Manager → Began
  found : Session → Began
  opens : Opening → Manager → Began

abbrev pub truthy : Option Str → Option Str
truthy none = none
truthy (some []) = none
truthy (some (c ∷ s)) = some (c ∷ s)

-- The parts of a message that are text, and their texts.
abbrev pub texts_of : List Part → List Str
texts_of [] = []
texts_of (text s ∷ parts) = s ∷ texts_of parts
texts_of (_ ∷ parts) = texts_of parts

-- `text.replace(/\s+/g, ' ')`; the flag says that white space has just been replaced
unfoldable pub collapse : Bool → Str → Str
unfolding is_space
collapse spaced [] = []
collapse spaced (c ∷ s) =
    let after_space = collapse true s in
    let after_text = collapse false s in
    if is_space c then if spaced then after_space else b' ' ∷ after_space else c ∷ after_text

unfoldable pub title_text : Message → Str
unfolding collapse trim join
title_text message = trim (collapse false (join (codes " ") (texts_of message.parts)))

abbrev pub is_user : Role → Bool
is_user user = true
is_user _ = false

abbrev pub new_thread : Str
new_thread = codes "New thread"

abbrev pub has_title : Str → Option ThreadRecord → Bool
has_title title none = false
has_title title (some thread) = str_eq thread.title title

-- `if (text) store.renameThread(id, text.slice(0, 60))`
abbrev pub titled : Tables → Str → Str → ℕ → Tables
titled tables id [] now = tables
titled tables id (c ∷ title) now = rename_thread tables id (take 60 (c ∷ title)) now

abbrev pub retitled : Bool → Bool → Tables → Str → Str → ℕ → Tables
retitled true true tables id title now = titled tables id title now
retitled true false tables id title now = tables
retitled false unnamed tables id title now = tables

module _ (amounts : Amounts) (codec : Codec amounts) where
  -- `onMessage`; `none` is an exception of the store.
  unfoldable pub store_message : Tables → Str → Message → ℕ → Option Tables
  unfolding append_messages get_thread rename_thread title_text str_eq
  store_message tables id message now = do
    appended ← append_messages amounts codec tables id (message ∷ []) now
    some (
        retitled (is_user message.role) (has_title new_thread (get_thread appended.threads id))
          appended id (title_text message) now)

  abbrev pub created :
      Tables → Str → Option Str → ℕ → Option ThreadRecord → Option (Tables × ThreadRecord)
  created tables id alias now none = create_thread tables (some id) none alias id now
  created tables id alias now (some thread) = some (tables, thread)

  -- the thread's row takes the alias that is asked for
  abbrev pub switched : Tables → Str → Option Str → Str → ℕ → Tables
  switched tables id none current now = tables
  switched tables id (some alias) current now =
      if str_eq alias current then tables else set_thread_model tables id alias now

  -- `modelAlias ?? thread?.modelAlias ?? defaultModelAlias ?? 'Standard'`
  abbrev pub alias_of : Option Str → Option Str → Option Str → Str
  alias_of asked stored default =
      or_default (or_default (or_default (codes "Standard") default) stored) asked

  abbrev pub opening_of : Manager → Str → Option Str → Option Str → List Message → Opening
  opening_of manager id alias stored history = record {
    id = id;
    model_alias = alias_of alias stored manager.default_model_alias;
    initial_history = history;
  }

  abbrev pub with_history :
      Manager → Str → Option Str → Str → Tables → Option (List Message) → Began
  with_history manager id alias stored tables none =
      throws (record manager { tables = some tables })
  with_history manager id alias stored tables (some history) =
      opens (opening_of manager id alias (some stored) history)
        (record manager { tables = some tables })

  -- what was written before the history is read stays written if that throws
  abbrev pub with_row : Manager → Str → Option Str → ℕ → Option (Tables × ThreadRecord) → Began
  with_row manager id alias now none = throws manager
  with_row manager id alias now (some (tables, thread)) =
      let tables_now = switched tables id (truthy alias) thread.model_alias now in
      with_history manager id alias thread.model_alias tables_now
        (load_messages amounts codec tables_now id)

  abbrev pub with_store : Manager → Str → Option Str → ℕ → Option Tables → Began
  with_store manager id alias now none = opens (opening_of manager id alias none []) manager
  with_store manager id alias now (some tables) =
      with_row manager id alias now
        (created tables id (truthy alias) now (get_thread tables.threads id))

  abbrev pub found_or_opened : Manager → Str → Option Str → ℕ → Option Session → Began
  found_or_opened manager id alias now (some session) = found session
  found_or_opened manager id alias now none = with_store manager id alias now manager.tables

  -- `get`, until it first waits.
  unfoldable pub begin_get : Manager → Str → Option Str → ℕ → Began
  unfolding get get_thread create_thread set_thread_model load_messages trim str_eq
  begin_get manager id alias now =
      if str_eq (trim id) []
      then throws manager
      else found_or_opened manager id alias now (get id manager.sessions)

-- `get`, from its last wait on: the session stands in the map from here.
unfoldable pub finish_get : Manager → Opening → Manager × Session
unfolding put
finish_get manager opening =
    let session : Session = record {
      id = opening.id;
      number = manager.made;
      model_alias = opening.model_alias;
      initial_history = opening.initial_history;
      approvals = init;
    } in
    (
      record manager {
        sessions = put opening.id session manager.sessions;
        made = suc manager.made;
      },
      session,
    )

-- `denyAll()` and `dispose()`
unfoldable pub close_session : Session → Session
unfolding deny_all
close_session session = record session { approvals = deny_all session.approvals }

abbrev pub close_found : Option Session → List Session
close_found none = []
close_found (some session) = close_session session ∷ []

abbrev pub without_thread : Str → Option Tables → Option Tables
without_thread id none = none
without_thread id (some tables) = some (delete_thread tables id)

-- `deleteThread`
unfoldable pub forget_thread : Manager → Str → Manager
unfolding get remove close_session delete_thread
forget_thread manager id = record manager {
  sessions = remove id manager.sessions;
  tables = without_thread id manager.tables;
  closed = manager.closed ++ close_found (get id manager.sessions);
}

unfoldable pub dispose : Manager → Manager
unfolding close_session
dispose manager = record manager {
  sessions = [];
  closed = manager.closed ++ map close_session (values manager.sessions);
}

abbrev pub new_manager : Option Tables → Option Str → Manager
new_manager tables default_model_alias = record {
  sessions = [];
  tables = tables;
  default_model_alias = default_model_alias;
  made = 0;
  closed = [];
}
