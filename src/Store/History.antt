-- ===== src/Store/History.antt =====
-- packages/store/src/store.ts: what is loaded of a thread.
use mathlib.Core.Path.{subst}
use mathlib.Core.Option.{some-injective}
use open_source_harness.Common.{
  ℕ, ◌≡◌, refl, sym, ap, ◌∙◌, false, not, none, some, List, [], ◌∷◌, ◌++◌, Str, str_eq,
  str_eq_sound, filter, arith, append-nil,
}
use open_source_harness.Protocol.Messages.{Message}
use open_source_harness.Protocol.Cost.{Amounts, zero_cost}
use open_source_harness.Store.{
  ThreadRecord, CostRow, Tables, get_thread, delete_thread, rows_of, costs_of, order_by_seq, Codec,
  parse_rows, append_messages, load_messages, thread_cost, sum_costs,
}
use open_source_harness.Store.Rows.{
  order_by_seq-Numbered, rows_of-append, rows_of-OfThread, rows_of-other, ReadsBack,
  parse_rows-append, insert_messages-HasInserted,
}
use open_source_harness.Store.Invariant.{IsSound, append_messages-IsSound}
use open_source_harness.Store.Threads.{rows_of-delete, rows_of-gone}

module _ (amounts : Amounts) (codec : Codec amounts) where
  -- In sound tables a thread is read in the order of insertion.
  load-in_order :
      (tables : Tables) (id : Str)
      → IsSound tables
      → load_messages amounts codec tables id
        ≡ parse_rows amounts codec (rows_of id tables.messages)
  unfolding load_messages
  load-in_order tables id w =
      ap (parse_rows amounts codec)
        (order_by_seq-Numbered 0 (rows_of id tables.messages) (w.numbered id))

  -- What an append does to the histories.
  pub record Appended (tables after : Tables) (id : Str) (old messages : List Message)
      : Type 0 where
    pub grown : load_messages amounts codec after id ≡ some (old ++ messages)
    pub others :
        (other : Str)
        → str_eq id other ≡ false
        → load_messages amounts codec after other ≡ load_messages amounts codec tables other

  -- Messages that are appended to a thread are loaded again behind those that were there, as they
  -- were and in their order, and no other thread changes, if the store is sound, the thread's history
  -- could be read, the append did not fail, and what JSON.stringify prints of the parts of these
  -- messages is parsed to the same parts.
  pub append_messages-load :
      (tables after : Tables) (id : Str) (old messages : List Message) (now : ℕ)
      → ReadsBack amounts codec messages
      → IsSound tables
      → load_messages amounts codec tables id ≡ some old
      → append_messages amounts codec tables id messages now ≡ some after
      → Appended tables after id old messages
  unfolding append_messages
  append_messages-load tables after id old [] now laws w was h =
      subst (λ t. Appended tables t id old []) (some-injective _ _ h)
        (record { grown = was ∙ ap some (sym (append-nil old)); others = λ other differ. refl })
  append_messages-load tables after id old (m ∷ messages) now laws w was h =
      let done = insert_messages-HasInserted amounts codec tables after id (m ∷ messages) now h in
      let sound = append_messages-IsSound amounts codec tables after id (m ∷ messages) now h w in
      let rows_after : after.messages ≡ tables.messages ++ done.rows =
        ap (λ (t : Tables). t.messages) done.tables_after in
      record {
        grown =
            load-in_order after id sound
            ∙ ap (λ rs. parse_rows amounts codec (rows_of id rs)) rows_after
            ∙ ap (parse_rows amounts codec) (rows_of-append id tables.messages done.rows)
            ∙ parse_rows-append amounts codec _ _ old (m ∷ messages)
                (sym (load-in_order tables id w) ∙ was)
                (ap (parse_rows amounts codec) (rows_of-OfThread id done.rows done.inserted.owned)
                  ∙ done.inserted.parsed laws);
        others = λ other differ.
            load-in_order after other sound
            ∙ ap (λ rs. parse_rows amounts codec (rows_of other rs)) rows_after
            ∙ ap (parse_rows amounts codec) (
                rows_of-append other tables.messages done.rows
                ∙ ap (◌++◌ (rows_of other tables.messages))
                    (rows_of-other id other done.rows differ done.inserted.owned)
                ∙ append-nil (rows_of other tables.messages))
            ∙ sym (load-in_order tables other w);
      }

  -- What the deletion of a thread leaves.
  pub record Deleted (tables after : Tables) (id : Str) : Type 0 where
    pub gone : get_thread after.threads id ≡ none
    pub no_messages : load_messages amounts codec after id ≡ some []
    pub no_costs : thread_cost amounts codec after id ≡ some (zero_cost amounts)
    pub others :
        (other : Str)
        → str_eq other id ≡ false
        → (get_thread after.threads other ≡ get_thread tables.threads other)
          × (load_messages amounts codec after other ≡ load_messages amounts codec tables other)
          × (thread_cost amounts codec after other ≡ thread_cost amounts codec tables other)

  thread_gone :
      (id : Str) (threads : List ThreadRecord)
      → get_thread (filter (λ (t : ThreadRecord). not (str_eq t.id id)) threads) id ≡ none
  unfolding get_thread
  thread_gone id [] = refl
  thread_gone id (t ∷ threads) = let rest = thread_gone id threads in ground (arith, rest)

  thread_stays :
      (id other : Str) (threads : List ThreadRecord)
      → str_eq other id ≡ false
      → get_thread (filter (λ (t : ThreadRecord). not (str_eq t.id id)) threads) other
        ≡ get_thread threads other
  unfolding get_thread
  thread_stays id other [] d = refl
  thread_stays id other (t ∷ threads) d =
      let rest = thread_stays id other threads d in ground (arith, rest, str_eq_sound t.id other)

  costs_gone :
      (id : Str) (rows : List CostRow)
      → costs_of id (filter (λ (c : CostRow). not (str_eq c.thread_id id)) rows) ≡ []
  unfolding costs_of
  costs_gone id [] = refl
  costs_gone id (c ∷ rows) = let rest = costs_gone id rows in ground (arith, rest)

  costs_stay :
      (id other : Str) (rows : List CostRow)
      → str_eq other id ≡ false
      → costs_of other (filter (λ (c : CostRow). not (str_eq c.thread_id id)) rows)
        ≡ costs_of other rows
  unfolding costs_of
  costs_stay id other [] d = refl
  costs_stay id other (c ∷ rows) d =
      let rest = costs_stay id other rows d in ground (arith, rest, str_eq_sound c.thread_id other)

  -- A thread that is deleted is gone with its messages and its costs, and every other thread, its
  -- messages and its costs are what they were.
  pub delete_thread-Deleted :
      (tables : Tables) (id : Str) → Deleted tables (delete_thread tables id) id
  unfolding delete_thread load_messages thread_cost parse_rows sum_costs order_by_seq
  delete_thread-Deleted tables id = record {
    gone = thread_gone id tables.threads;
    no_messages =
        ap (λ rs. parse_rows amounts codec (order_by_seq rs)) (rows_of-gone id tables.messages);
    no_costs = ap (sum_costs amounts codec (zero_cost amounts)) (costs_gone id tables.costs);
    others = λ other differ. (
      thread_stays id other tables.threads differ,
      ap (λ rs. parse_rows amounts codec (order_by_seq rs))
          (rows_of-delete id other tables.messages differ),
      ap (sum_costs amounts codec (zero_cost amounts)) (costs_stay id other tables.costs differ),
    );
  }
