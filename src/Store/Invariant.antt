-- ===== src/Store/Invariant.antt =====
-- packages/store/src/store.ts and schema.ts: the tables stay sound under every call.
use mathlib.Core.Path.{subst}
use mathlib.Core.Option.{some-injective}
use open_source_harness.Common.{
  All-weaken, ℕ, ◌+◌, ◌≡◌, refl, sym, ap, ◌∙◌, inl, inr, true, not, Option, none, some, List, [],
  ◌∷◌, ◌++◌, Str, str_eq, str_eq_sound, filter, arith, Bool-cases, Option-cases, All, All-append,
  append-nil, length,
}
use open_source_harness.Protocol.Messages.{Message}
use open_source_harness.Protocol.Cost.{Amounts, CostBuckets}
use open_source_harness.Store.{
  is_blank, or_default, next_seq, kept, created_in, ThreadRecord, MessageRow, CostRow, Tables,
  no_tables, get_thread, create_thread, rename_thread, set_thread_model, delete_thread,
  update_threads, rows_of, Codec, append_messages, record_thread_cost, StoreCall, creates, renames,
  sets_model, deletes, appends, records_cost, store_call, store_calls,
}
use open_source_harness.Store.Rows.{
  Inserted, insert_messages-HasInserted, Numbered, append-Numbered, next_seq-eq-length,
  rows_of-append, rows_of-OfThread, rows_of-other,
}
use open_source_harness.Store.Threads.{
  has_thread, has_thread-append, has_thread-update, found_thread, left_behind, rows_of-delete,
  rows_of-gone,
}

-- No message and no cost is left without its thread, and the messages of each thread are numbered
-- from 0 without a gap, in the order of the table.
pub record IsSound (tables : Tables) : Type 0 where
  pub messages :
      All (λ (m : MessageRow). has_thread tables.threads m.thread_id ≡ true) tables.messages
  pub costs : All (λ (c : CostRow). has_thread tables.threads c.thread_id ≡ true) tables.costs
  pub numbered : (id : Str) → Numbered 0 (rows_of id tables.messages)

-- Tables whose threads still cover the old ones stay sound.
covers :
    (tables : Tables) (threads : List ThreadRecord)
    → ((id : Str) → has_thread tables.threads id ≡ true → has_thread threads id ≡ true)
    → IsSound tables
    → IsSound (record tables { threads = threads })
covers tables threads keeps w = record {
  messages =
      All-weaken (λ (m : MessageRow). has_thread tables.threads m.thread_id ≡ true)
        (λ (m : MessageRow). has_thread threads m.thread_id ≡ true) (λ m. keeps m.thread_id)
        tables.messages w.messages;
  costs =
      All-weaken (λ (c : CostRow). has_thread tables.threads c.thread_id ≡ true)
        (λ (c : CostRow). has_thread threads c.thread_id ≡ true) (λ c. keeps c.thread_id)
        tables.costs w.costs;
  numbered = w.numbered;
}

update-IsSound :
    (tables : Tables) (change : ThreadRecord → ThreadRecord) (id : Str)
    → ((t : ThreadRecord) → (change t).id ≡ t.id)
    → IsSound tables
    → IsSound (record tables { threads = update_threads change id tables.threads })
update-IsSound tables change id same w =
    covers tables _ (λ other h. has_thread-update change id other tables.threads same ∙ h) w

delete_thread-IsSound :
    (tables : Tables) (id : Str) → IsSound tables → IsSound (delete_thread tables id)
unfolding delete_thread
delete_thread-IsSound tables id w = record {
  messages =
      left_behind (λ (m : MessageRow). m.thread_id) tables.threads id tables.messages w.messages;
  costs = left_behind (λ (c : CostRow). c.thread_id) tables.threads id tables.costs w.costs;
  numbered = λ other. elim (Bool-cases (str_eq other id)) [
    | inl same ↦
        subst (Numbered 0)
          (sym (
            ap
              (λ o.
                rows_of o
                  (filter (λ (m : MessageRow). not (str_eq m.thread_id id)) tables.messages))
              (str_eq_sound other id same)
            ∙ rows_of-gone id tables.messages))
          tt
    | inr differ ↦
        subst (Numbered 0) (sym (rows_of-delete id other tables.messages differ)) (w.numbered other)
  ];
}

pub create_thread-IsSound :
    (tables : Tables) (id title model_alias : Option Str) (random : Str) (now : ℕ)
    (made : Tables × ThreadRecord)
    → create_thread tables id title model_alias random now ≡ some made
    → IsSound tables
    → IsSound made.0
unfolding create_thread
create_thread-IsSound tables id title model_alias random now made h w =
    elim (Bool-cases (is_blank id)) [
      | inl blank ↦ absurd (ground arith)
      | inr named ↦ elim (Option-cases (get_thread tables.threads (or_default random id))) [
        | inr (taken, found) ↦ absurd (ground arith)
        | inl free ↦
            subst (λ made. IsSound made.0) (some-injective _ _ (rw (named, free) at h))
              (covers tables _ (λ other there_. has_thread-append tables.threads _ other there_) w)
      ]
    ]

module _ (amounts : Amounts) (codec : Codec amounts) where
  open codec use {print_buckets}

  Inserted-IsSound :
      (tables : Tables) (thread_id : Str) (messages : List Message) (rows : List MessageRow)
      → has_thread tables.threads thread_id ≡ true
      → Inserted amounts codec thread_id
          (next_seq (rows_of thread_id tables.messages))
          messages
          rows
      → IsSound tables
      → IsSound (record tables { messages = tables.messages ++ rows })
  Inserted-IsSound tables thread_id messages rows there_ i w = record {
    messages =
        All-append (λ (m : MessageRow). has_thread tables.threads m.thread_id ≡ true)
          tables.messages rows w.messages
          (All-weaken (λ (m : MessageRow). m.thread_id ≡ thread_id)
            (λ (m : MessageRow). has_thread tables.threads m.thread_id ≡ true)
            (λ m e. ap (has_thread tables.threads) e ∙ there_) rows i.owned);
    costs = w.costs;
    numbered = λ other. elim (Bool-cases (str_eq thread_id other)) [
      | inl same ↦
          let it = str_eq_sound thread_id other same in
          subst (Numbered 0) (sym (rows_of-append other tables.messages rows)) (
            append-Numbered 0 _ _ (w.numbered other) (
              subst (λ rs. Numbered (0 + length (rows_of other tables.messages)) rs)
                (sym (ap (λ o. rows_of o rows) (sym it) ∙ rows_of-OfThread thread_id rows i.owned))
                (subst (λ k. Numbered k rows)
                  (ap (λ o. next_seq (rows_of o tables.messages)) it
                    ∙ next_seq-eq-length _ (w.numbered other)
                    ∙ omega arith)
                  i.numbered)))
      | inr differ ↦
          subst (Numbered 0)
            (sym (
              rows_of-append other tables.messages rows
              ∙ ap (◌++◌ (rows_of other tables.messages))
                  (rows_of-other thread_id other rows differ i.owned)
              ∙ append-nil _))
            (w.numbered other)
    ];
  }

  pub append_messages-IsSound :
      (tables after : Tables) (thread_id : Str) (messages : List Message) (now : ℕ)
      → append_messages amounts codec tables thread_id messages now ≡ some after
      → IsSound tables
      → IsSound after
  unfolding append_messages
  append_messages-IsSound tables after thread_id [] now h w = subst IsSound (some-injective _ _ h) w
  append_messages-IsSound tables after thread_id (m ∷ messages) now h w =
      let done =
        insert_messages-HasInserted amounts codec tables after thread_id (m ∷ messages) now h in
      subst IsSound (sym done.tables_after) (
        update-IsSound (record tables { messages = tables.messages ++ done.rows }) _ thread_id
          (λ t. refl)
          (Inserted-IsSound tables thread_id (m ∷ messages) done.rows
            (found_thread tables.threads thread_id done.thread done.found) done.inserted w))

  record_thread_cost-IsSound :
      (tables after : Tables) (thread_id run_id model : Str) (buckets : CostBuckets amounts)
      (now : ℕ)
      → record_thread_cost amounts codec tables thread_id run_id model buckets now ≡ some after
      → IsSound tables
      → IsSound after
  unfolding record_thread_cost
  record_thread_cost-IsSound tables after thread_id run_id model buckets now h w =
      elim (Option-cases (get_thread tables.threads thread_id)) [
        | inl missing ↦ absurd (ground arith)
        | inr (thread, found) ↦
            subst IsSound (some-injective _ _ (rw (record_thread_cost, found) at h)) (record {
              messages = w.messages;
              costs =
                  All-append (λ (c : CostRow). has_thread tables.threads c.thread_id ≡ true)
                    tables.costs _ w.costs (found_thread tables.threads thread_id thread found, tt);
              numbered = w.numbered;
            })
      ]

  pub kept-IsSound :
      (tables : Tables) (after : Option Tables)
      → ((changed : Tables) → after ≡ some changed → IsSound changed)
      → IsSound tables
      → IsSound (kept amounts codec tables after)
  kept-IsSound tables none f w = w
  kept-IsSound tables (some changed) f w = f changed refl

  pub created-IsSound :
      (tables : Tables) (after : Option (Tables × ThreadRecord))
      → ((made : Tables × ThreadRecord) → after ≡ some made → IsSound made.0)
      → IsSound tables
      → IsSound (created_in amounts codec tables after)
  created-IsSound tables none f w = w
  created-IsSound tables (some made) f w = f made refl

  pub store_call-IsSound :
      (tables : Tables) (call : StoreCall amounts codec)
      → IsSound tables
      → IsSound (store_call amounts codec tables call)
  unfolding store_call rename_thread set_thread_model
  store_call-IsSound tables (creates id title model_alias random now) w =
      created-IsSound tables _
        (λ made h. create_thread-IsSound tables id title model_alias random now made h w) w
  store_call-IsSound tables (renames id title now) w = update-IsSound tables _ id (λ t. refl) w
  store_call-IsSound tables (sets_model id model_alias now) w =
      update-IsSound tables _ id (λ t. refl) w
  store_call-IsSound tables (deletes id) w = delete_thread-IsSound tables id w
  store_call-IsSound tables (appends thread_id messages now) w =
      kept-IsSound tables _
        (λ after h. append_messages-IsSound tables after thread_id messages now h w) w
  store_call-IsSound tables (records_cost thread_id run_id model buckets now) w =
      kept-IsSound tables _
        (λ after h. record_thread_cost-IsSound tables after thread_id run_id model buckets now h w)
        w

  run-IsSound :
      (tables : Tables) (calls : List (StoreCall amounts codec))
      → IsSound tables
      → IsSound (store_calls amounts codec tables calls)
  unfolding store_calls
  run-IsSound tables [] w = w
  run-IsSound tables (call ∷ calls) w =
      run-IsSound (store_call amounts codec tables call) calls (store_call-IsSound tables call w)

  -- After any sequence of calls on a new store, those that throw included, no message and no cost is
  -- left without its thread, and the messages of each thread are numbered from 0 without a gap, in
  -- the order in which they were inserted.
  pub store_calls-IsSound :
      (calls : List (StoreCall amounts codec)) → IsSound (store_calls amounts codec no_tables calls)
  unfolding rows_of
  store_calls-IsSound calls =
      run-IsSound no_tables calls (record { messages = tt; costs = tt; numbered = λ id. tt })
