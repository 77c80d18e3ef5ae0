-- ===== src/Store/Rows.antt =====
-- packages/store/src/store.ts: the rows of one thread, their numbers and what they are parsed to.
use mathlib.Core.Path.{subst}
use open_source_harness.Common.{
  ◌==◌, ℕ, ◌+◌, ◌≡◌, refl, sym, ap, ◌∙◌, inl, inr, Bool, true, false, some, List, [], ◌∷◌, ◌++◌,
  Str, str_eq, str_eq_refl, filter-append, length, max, arith, Option-cases, All, if◌then◌else◌,
}
use mathlib.Core.Option.{some-injective}
use open_source_harness.Common.Monad.{>>=-eq-some}
use open_source_harness.Protocol.Messages.{Message}
use open_source_harness.Protocol.Cost.{Amounts}
use open_source_harness.Store.{
  MessageRow, rows_of, next_seq, place, order_by_seq, Codec, message_rows, parse_rows, ThreadRecord,
  Tables, get_thread, update_threads, insert_messages,
}

-- The rows carry the numbers from `n` on, in order.
abbrev pub Numbered : ℕ → List MessageRow → Type 0
Numbered n [] = Unit {0}
Numbered n (row ∷ rows) = (row.seq ≡ n) × Numbered (n + 1) rows

pub append-Numbered :
    (n : ℕ) (xs ys : List MessageRow)
    → Numbered n xs
    → Numbered (n + length xs) ys
    → Numbered n (xs ++ ys)
append-Numbered n [] ys a b = subst (λ k. Numbered k ys) (omega arith) b
append-Numbered n (x ∷ xs) ys (e, a) b =
    (e, append-Numbered (n + 1) xs ys a (subst (λ k. Numbered k ys) (omega arith) b))

after-Numbered :
    (n : ℕ) (rows : List MessageRow) → Numbered n rows → max n (next_seq rows) ≡ n + length rows
unfolding next_seq
after-Numbered n [] a = omega arith
after-Numbered n (row ∷ rows) (e, a) =
    let rest = after-Numbered (n + 1) rows a in omega (arith, rest, e)

pub next_seq-eq-length : (rows : List MessageRow) → Numbered 0 rows → next_seq rows ≡ length rows
next_seq-eq-length rows a = let last = after-Numbered 0 rows a in omega (arith, last)

-- Numbered rows are in the order of their numbers.
pub order_by_seq-Numbered :
    (n : ℕ) (rows : List MessageRow) → Numbered n rows → order_by_seq rows ≡ rows
unfolding order_by_seq place
order_by_seq-Numbered n [] a = refl
order_by_seq-Numbered n (row ∷ rows) (e, a) =
    rw (order_by_seq-Numbered (n + 1) rows a) (foremost row rows (n + 1) (omega (arith, e)) a)
  where
    foremost :
        (row : MessageRow) (rows : List MessageRow) (m : ℕ)
        → row.seq + 1 ≡ m
        → Numbered m rows
        → place row rows ≡ row ∷ rows
    foremost row [] m f a = refl
    foremost row (next ∷ rows) m f (e, a) = ground arith

pub rows_of-append :
    (id : Str) (xs ys : List MessageRow) → rows_of id (xs ++ ys) ≡ rows_of id xs ++ rows_of id ys
unfolding rows_of
rows_of-append id xs ys = filter-append (λ (m : MessageRow). str_eq m.thread_id id) xs ys

abbrev pub OfThread : Str → List MessageRow → Type 0
OfThread id rows = All (λ (m : MessageRow). m.thread_id ≡ id) rows

pub rows_of-OfThread :
    (id : Str) (rows : List MessageRow) → OfThread id rows → rows_of id rows ≡ rows
unfolding rows_of
rows_of-OfThread id [] o = refl
rows_of-OfThread id (row ∷ rows) (e, o) =
    let same : str_eq row.thread_id id ≡ true = ap (λ t. str_eq t id) e ∙ str_eq_refl id in
    rw (same) (ap (◌∷◌ row) (rows_of-OfThread id rows o))

pub rows_of-other :
    (id other : Str) (rows : List MessageRow)
    → str_eq id other ≡ false
    → OfThread id rows
    → rows_of other rows ≡ []
unfolding rows_of
rows_of-other id other [] d o = refl
rows_of-other id other (row ∷ rows) d (e, o) =
    let apart : str_eq row.thread_id other ≡ false = ap (λ t. str_eq t other) e ∙ d in
    rw (apart) (rows_of-other id other rows d o)

module _ (amounts : Amounts) (codec : Codec amounts) where
  open codec use {print_parts, parse_parts}

  -- What is printed of the parts of these messages is parsed to the same parts.
  abbrev pub ReadsBack : List Message → Type 0
  ReadsBack messages =
      All (λ (m : Message). (s : Str) → print_parts m.parts ≡ some s → parse_parts s ≡ some m.parts)
        messages

  pub parse_rows-append :
      (xs ys : List MessageRow) (a b : List Message)
      → parse_rows amounts codec xs ≡ some a
      → parse_rows amounts codec ys ≡ some b
      → parse_rows amounts codec (xs ++ ys) ≡ some (a ++ b)
  unfolding parse_rows
  parse_rows-append [] ys a b h k = rw (sym (some-injective _ _ h)) k
  parse_rows-append (x ∷ xs) ys a b h k =
      let (parts, p, more) = >>=-eq-some (parse_parts x.parts) _ h in
      let (rest, q, whole) = >>=-eq-some (parse_rows amounts codec xs) _ more in
      rw (p) (
        rw (parse_rows-append xs ys rest b q k)
          (ap (λ ms. some (ms ++ b)) (some-injective _ _ whole)))

  -- The rows that are inserted belong to the thread, are numbered from the first number on, and are
  -- parsed to the messages.
  pub record Inserted (thread_id : Str) (n : ℕ) (messages : List Message) (rows : List MessageRow)
      : Type 0 where
    pub owned : OfThread thread_id rows
    pub numbered : Numbered n rows
    pub parsed : ReadsBack messages → parse_rows amounts codec rows ≡ some messages

  pinned_back : (b : Bool) → ((if b then 1 else 0) == 1) ≡ b
  pinned_back true = refl
  pinned_back false = refl

  pub message_rows-Inserted :
      (thread_id : Str) (now n : ℕ) (messages : List Message) (rows : List MessageRow)
      → message_rows amounts codec thread_id now n messages ≡ some rows
      → Inserted thread_id n messages rows
  unfolding message_rows parse_rows
  message_rows-Inserted thread_id now n [] rows h =
      subst (Inserted thread_id n []) (some-injective _ _ h)
        (record { owned = tt; numbered = tt; parsed = λ laws. refl })
  message_rows-Inserted thread_id now n (m ∷ messages) rows h =
      let (printed, p, more) = >>=-eq-some (print_parts m.parts) _ h in
      let (rest, q, whole) =
        >>=-eq-some (message_rows amounts codec thread_id now (n + 1) messages) _ more in
      let others = message_rows-Inserted thread_id now (n + 1) messages rest q in
      subst (Inserted thread_id n (m ∷ messages)) (some-injective _ _ whole) (record {
        owned = (refl, others.owned);
        numbered = (refl, others.numbered);
        parsed = λ laws.
            rw (laws.0 printed p) (rw (others.parsed laws.1) (rw (pinned_back m.pinned) refl));
      })

  -- What a transaction that commits has done.
  pub record HasInserted (tables after : Tables) (thread_id : Str) (messages : List Message)
      (now : ℕ) : Type 0 where
    pub thread : ThreadRecord
    pub found : get_thread tables.threads thread_id ≡ some thread
    pub rows : List MessageRow
    pub inserted : Inserted thread_id (next_seq (rows_of thread_id tables.messages)) messages rows
    pub tables_after : after ≡ record tables {
      threads = update_threads (λ t. record t { updated_at = now }) thread_id tables.threads;
      messages = tables.messages ++ rows;
    }

  pub insert_messages-HasInserted :
      (tables after : Tables) (thread_id : Str) (messages : List Message) (now : ℕ)
      → insert_messages amounts codec tables thread_id now messages ≡ some after
      → HasInserted tables after thread_id messages now
  unfolding insert_messages
  insert_messages-HasInserted tables after thread_id messages now h =
      elim (Option-cases (get_thread tables.threads thread_id)) [
        | inl missing ↦ absurd (ground arith)
        | inr (thread, found) ↦
            let (rows, made, whole) =
              >>=-eq-some
                (message_rows amounts codec thread_id now
                  (next_seq (rows_of thread_id tables.messages)) messages)
                _ (rw (insert_messages, found) at h) in
            record {
              thread = thread;
              found = found;
              rows = rows;
              inserted = message_rows-Inserted thread_id now _ messages rows made;
              tables_after = sym (some-injective _ _ whole);
            }
      ]
