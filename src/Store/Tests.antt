-- ===== src/Store/Tests.antt =====
-- packages/store/src/store.ts: two threads with messages and costs, and instances of the theorems. A
-- part is stored when it is a text.
use open_source_harness.Common.{
  ◌≡◌, refl, Option, none, some, false, List, [], ◌∷◌, Str, codes, str_eq, trim, arith,
}
use open_source_harness.Protocol.Messages.{Part, text, user, Message}
use open_source_harness.Protocol.Cost.{zero_cost, add_cost}
use open_source_harness.Gateway.Budget.Tests.{cents, cost_of}
use open_source_harness.Store.{
  Tables, no_tables, get_thread, create_thread, rows_of, next_seq, place, order_by_seq, costs_of,
  Codec, message_rows, insert_messages, append_messages, parse_rows, load_messages,
  record_thread_cost, sum_costs, thread_cost, total_cost, kept, StoreCall, creates, appends,
  records_cost, store_call, store_calls,
}
use open_source_harness.Store.Invariant.{IsSound, store_calls-IsSound}
use open_source_harness.Store.History.{Appended, append_messages-load}

abbrev pub print_text : List Part → Option Str
print_text (text s ∷ []) = some s
print_text _ = none

abbrev pub parse_text : Str → Option (List Part)
parse_text s = some (text s ∷ [])

-- Costs are stored as their price.
abbrev pub codec : Codec cents
codec = record {
  print_parts = print_text;
  parse_parts = parse_text;
  print_buckets = λ b. b.usd ∷ [];
  parse_buckets = λ s. elim s [ [] ↦ none | usd ∷ t ↦ some (cost_of usd) ];
}

abbrev pub says : Str → Str → Message
says id words = record { id = id; role = user; parts = text words ∷ []; pinned = false }

pub reads_text :
    (words s : Str) → print_text (text words ∷ []) ≡ some s → parse_text s ≡ some (text words ∷ [])
reads_text words s h = ground arith

abbrev pub calls : List (StoreCall cents codec)
calls =
    creates (some (codes "a")) none none (codes "r1") 1
    ∷ creates (some (codes "b")) none none (codes "r2") 2
    ∷ creates (some (codes " ")) none none (codes "r3") 3
    ∷ appends (codes "a") (says (codes "m1") (codes "Hi.") ∷ says (codes "m2") (codes "Yes?") ∷ [])
        4
    ∷ appends (codes "b") (says (codes "m3") (codes "Other.") ∷ []) 5
    ∷ records_cost (codes "a") (codes "run") (codes "Light") (cost_of 3) 6
    ∷ records_cost (codes "c") (codes "run") (codes "Light") (cost_of 9) 7
    ∷ []

abbrev pub stored : Tables
stored = store_calls cents codec no_tables calls

abbrev more : List Message
more = says (codes "m4") (codes "Go on.") ∷ []

abbrev pub old : List Message
old = says (codes "m1") (codes "Hi.") ∷ says (codes "m2") (codes "Yes?") ∷ []

sealed : Unit {0}
unfolding store_calls store_call create_thread append_messages insert_messages message_rows rows_of
    next_seq get_thread str_eq trim record_thread_cost load_messages parse_rows order_by_seq place
    thread_cost sum_costs zero_cost add_cost costs_of total_cost
sealed = tt

loaded : load_messages cents codec stored (codes "a") ≡ some old
unfolding sealed
loaded = refl

spent :
    (thread_cost cents codec stored (codes "a")
      ≡ some (add_cost cents (zero_cost cents) (cost_of 3)))
    × (total_cost cents codec stored ≡ some (add_cost cents (zero_cost cents) (cost_of 3)))
unfolding sealed
spent = (refl, refl)

-- the stored tables are sound
stored_soundly : IsSound stored
stored_soundly = store_calls-IsSound cents codec calls

abbrev grown : Tables
grown = kept cents codec stored (append_messages cents codec stored (codes "a") more 8)

grows : append_messages cents codec stored (codes "a") more 8 ≡ some grown
unfolding sealed
grows = refl

append_messages-load_example : Appended cents codec stored grown (codes "a") old more
append_messages-load_example =
    append_messages-load cents codec stored grown (codes "a") old more 8
      (reads_text (codes "Go on."), tt) stored_soundly loaded grows

abbrev billed : Tables
billed =
    kept cents codec stored (
      record_thread_cost cents codec stored (codes "b") (codes "run") (codes "Light") (cost_of 4) 9)

bills :
    (record_thread_cost cents codec stored (codes "b") (codes "run") (codes "Light") (cost_of 4) 9
      ≡ some billed)
    × (thread_cost cents codec stored (codes "b") ≡ some (zero_cost cents))
unfolding sealed
bills = (refl, refl)
