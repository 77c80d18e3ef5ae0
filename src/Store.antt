-- ===== src/Store.antt =====
-- packages/store/src/store.ts with the tables of schema.ts: the durable store of conversations. A
-- table is the list of its rows in the order of insertion, and a statement is rendered with the
-- constraints of the schema: a foreign key that is not there or a primary key that is taken throws,
-- and the deletion of a thread cascades. `none` is a call that throws and leaves the tables as they
-- were. Random ids and the clock are arguments.
pub mod Tests
pub mod Rows
pub mod Threads
pub mod Invariant
pub mod History
pub mod Costs
use open_source_harness.Common.{
  ℕ, ◌+◌, Bool, true, false, not, Option, none, some, List, [], ◌∷◌, ◌++◌, Str, codes, str_eq,
  filter, map, ◌==◌, leb, max, trim, if◌then◌else◌,
}
use open_source_harness.Common.Monad.{◌>>=◌}
use open_source_harness.Protocol.Messages.{Part, Role, Message}
use open_source_harness.Protocol.Cost.{Amounts, CostBuckets, zero_cost, add_cost}

pub record ThreadRecord : Type 0 where
  pub id : Str
  pub title : Str
  pub model_alias : Str
  pub created_at : ℕ
  pub updated_at : ℕ

pub record MessageRow : Type 0 where
  pub id : Str
  pub thread_id : Str
  pub seq : ℕ
  pub role : Role
  pub parts : Str
  pub pinned : ℕ
  pub created_at : ℕ

pub record CostRow : Type 0 where
  pub thread_id : Str
  pub run_id : Str
  pub model : Str
  pub buckets : Str
  pub ts : ℕ

pub record Tables : Type 0 where
  pub threads : List ThreadRecord
  pub messages : List MessageRow
  pub costs : List CostRow

abbrev pub no_tables : Tables
no_tables = record { threads = []; messages = []; costs = [] }

-- `WHERE id = ?`, and the foreign key
unfoldable pub get_thread : List ThreadRecord → Str → Option ThreadRecord
get_thread [] id = none
get_thread (t ∷ threads) id =
    let rest = get_thread threads id in if str_eq t.id id then some t else rest

abbrev pub or_default : Str → Option Str → Str
or_default fallback none = fallback
or_default fallback (some s) = s

abbrev pub is_blank : Option Str → Bool
is_blank none = false
is_blank (some id) = str_eq (trim id) []

unfoldable pub create_thread :
    Tables → Option Str → Option Str → Option Str → Str → ℕ → Option (Tables × ThreadRecord)
unfolding trim get_thread
create_thread tables id title model_alias random now =
    let created : ThreadRecord = record {
      id = or_default random id;
      title = or_default (codes "New thread") title;
      model_alias = or_default (codes "Standard") model_alias;
      created_at = now;
      updated_at = now;
    } in
    if is_blank id then none else elim (get_thread tables.threads (or_default random id)) [
      | some taken ↦ none
      | none ↦ some (record tables { threads = tables.threads ++ created ∷ [] }, created)
    ]

-- `UPDATE threads SET … WHERE id = ?`
abbrev pub update_threads :
    (ThreadRecord → ThreadRecord) → Str → List ThreadRecord → List ThreadRecord
update_threads change id threads =
    map (λ (t : ThreadRecord). if str_eq t.id id then change t else t) threads

unfoldable pub rename_thread : Tables → Str → Str → ℕ → Tables
rename_thread tables id title now = record tables {
  threads = update_threads (λ t. record t { title = title; updated_at = now }) id tables.threads;
}

unfoldable pub set_thread_model : Tables → Str → Str → ℕ → Tables
set_thread_model tables id model_alias now = record tables {
  threads =
      update_threads (λ t. record t { model_alias = model_alias; updated_at = now }) id
        tables.threads;
}

unfoldable pub delete_thread : Tables → Str → Tables
delete_thread tables id = record {
  threads = filter (λ (t : ThreadRecord). not (str_eq t.id id)) tables.threads;
  messages = filter (λ (m : MessageRow). not (str_eq m.thread_id id)) tables.messages;
  costs = filter (λ (c : CostRow). not (str_eq c.thread_id id)) tables.costs;
}

unfoldable pub rows_of : Str → List MessageRow → List MessageRow
rows_of id rows = filter (λ (m : MessageRow). str_eq m.thread_id id) rows

-- `SELECT COALESCE(MAX(seq), -1) + 1`
unfoldable pub next_seq : List MessageRow → ℕ
next_seq [] = 0
next_seq (row ∷ rows) = max (row.seq + 1) (next_seq rows)

-- `ORDER BY seq`
unfoldable pub place : MessageRow → List MessageRow → List MessageRow
place row [] = row ∷ []
place row (next ∷ rows) =
    let rest = place row rows in if leb row.seq next.seq then row ∷ next ∷ rows else next ∷ rest

unfoldable pub order_by_seq : List MessageRow → List MessageRow
unfolding place
order_by_seq [] = []
order_by_seq (row ∷ rows) = place row (order_by_seq rows)

unfoldable pub costs_of : Str → List CostRow → List CostRow
costs_of id rows = filter (λ (c : CostRow). str_eq c.thread_id id) rows

-- JSON.stringify, and JSON.parse with the schema behind it
pub record Codec (amounts : Amounts) : Type 0 where
  pub print_parts : List Part → Option Str
  pub parse_parts : Str → Option (List Part)
  pub print_buckets : CostBuckets amounts → Str
  pub parse_buckets : Str → Option (CostBuckets amounts)

module _ (amounts : Amounts) (codec : Codec amounts) where
  open codec use {print_parts, parse_parts, print_buckets, parse_buckets}

  -- the rows that the transaction inserts, or the exception that rolls it back
  unfoldable pub message_rows : Str → ℕ → ℕ → List Message → Option (List MessageRow)
  message_rows thread_id now seq [] = some []
  message_rows thread_id now seq (m ∷ messages) = do
    printed ← print_parts m.parts
    rest ← message_rows thread_id now (seq + 1) messages
    some (
        record {
          id = m.id;
          thread_id = thread_id;
          seq = seq;
          role = m.role;
          parts = printed;
          pinned = if m.pinned then 1 else 0;
          created_at = now;
        }
        ∷ rest)

  unfoldable pub insert_messages : Tables → Str → ℕ → List Message → Option Tables
  unfolding message_rows rows_of next_seq get_thread
  insert_messages tables thread_id now messages = elim (get_thread tables.threads thread_id) [
    | none ↦ none
    | some thread ↦ do
      inserted ← message_rows thread_id now (next_seq (rows_of thread_id tables.messages)) messages
      some (record tables {
        threads = update_threads (λ t. record t { updated_at = now }) thread_id tables.threads;
        messages = tables.messages ++ inserted;
      })
  ]

  unfoldable pub append_messages : Tables → Str → List Message → ℕ → Option Tables
  unfolding insert_messages
  append_messages tables thread_id [] now = some tables
  append_messages tables thread_id (m ∷ messages) now =
      insert_messages tables thread_id now (m ∷ messages)

  unfoldable pub parse_rows : List MessageRow → Option (List Message)
  parse_rows [] = some []
  parse_rows (row ∷ rows) = do
    parts ← parse_parts row.parts
    rest ← parse_rows rows
    some (record { id = row.id; role = row.role; parts = parts; pinned = row.pinned == 1 } ∷ rest)

  unfoldable pub load_messages : Tables → Str → Option (List Message)
  unfolding parse_rows order_by_seq rows_of
  load_messages tables thread_id = parse_rows (order_by_seq (rows_of thread_id tables.messages))

  unfoldable pub record_thread_cost :
      Tables → Str → Str → Str → CostBuckets amounts → ℕ → Option Tables
  unfolding get_thread
  record_thread_cost tables thread_id run_id model buckets now =
      elim (get_thread tables.threads thread_id) [
        | none ↦ none
        | some thread ↦ some (record tables {
          costs =
              tables.costs
              ++ record {
                thread_id = thread_id;
                run_id = run_id;
                model = model;
                buckets = print_buckets buckets;
                ts = now;
              }
                ∷ [];
        })
      ]

  -- the `reduce`, from the total so far
  unfoldable pub sum_costs : CostBuckets amounts → List CostRow → Option (CostBuckets amounts)
  unfolding add_cost
  sum_costs total [] = some total
  sum_costs total (row ∷ rows) = do
    buckets ← parse_buckets row.buckets
    sum_costs (add_cost amounts total buckets) rows

  unfoldable pub thread_cost : Tables → Str → Option (CostBuckets amounts)
  unfolding sum_costs zero_cost costs_of
  thread_cost tables thread_id = sum_costs (zero_cost amounts) (costs_of thread_id tables.costs)

  unfoldable pub total_cost : Tables → Option (CostBuckets amounts)
  unfolding sum_costs zero_cost
  total_cost tables = sum_costs (zero_cost amounts) tables.costs

  -- The calls that change the tables.
  pub data StoreCall : Type 0 where
    creates : Option Str → Option Str → Option Str → Str → ℕ → StoreCall
    renames sets_model : Str → Str → ℕ → StoreCall
    deletes : Str → StoreCall
    appends : Str → List Message → ℕ → StoreCall
    records_cost : Str → Str → Str → CostBuckets amounts → ℕ → StoreCall

  abbrev pub kept : Tables → Option Tables → Tables
  kept tables none = tables
  kept tables (some changed) = changed

  abbrev pub created_in : Tables → Option (Tables × ThreadRecord) → Tables
  created_in tables none = tables
  created_in tables (some made) = made.0

  -- A call that throws leaves the tables as they are.
  unfoldable pub store_call : Tables → StoreCall → Tables
  unfolding create_thread rename_thread set_thread_model delete_thread append_messages
      record_thread_cost
  store_call tables (creates id title model_alias random now) =
      created_in tables (create_thread tables id title model_alias random now)
  store_call tables (renames id title now) = rename_thread tables id title now
  store_call tables (sets_model id model_alias now) = set_thread_model tables id model_alias now
  store_call tables (deletes id) = delete_thread tables id
  store_call tables (appends thread_id messages now) =
      kept tables (append_messages tables thread_id messages now)
  store_call tables (records_cost thread_id run_id model buckets now) =
      kept tables (record_thread_cost tables thread_id run_id model buckets now)

  unfoldable pub store_calls : Tables → List StoreCall → Tables
  unfolding store_call
  store_calls tables [] = tables
  store_calls tables (call ∷ calls) = store_calls (store_call tables call) calls
