-- ===== src/Store/Threads.antt =====
-- packages/store/src/store.ts: which threads, and which rows of theirs, a change of the tables leaves.
use open_source_harness.Common.{
  ◌≡◌, refl, ◌∙◌, inl, inr, Bool, true, false, not, none, some, List, [], ◌∷◌, ◌++◌, Str, str_eq,
  str_eq_sound, filter, arith, Bool-cases, All,
}
use open_source_harness.Store.{ThreadRecord, MessageRow, get_thread, update_threads, rows_of}

abbrev pub has_thread : List ThreadRecord → Str → Bool
has_thread threads id = elim (get_thread threads id) [ none ↦ false | some t ↦ true ]

-- Threads are still there when others are added, and when they are changed under their ids.
pub has_thread-append :
    (threads more : List ThreadRecord) (id : Str)
    → has_thread threads id ≡ true
    → has_thread (threads ++ more) id ≡ true
unfolding get_thread
has_thread-append [] more id h = absurd (ground arith)
has_thread-append (t ∷ threads) more id h = ground (arith, has_thread-append threads more id)

pub has_thread-update :
    (change : ThreadRecord → ThreadRecord) (at id : Str) (threads : List ThreadRecord)
    → ((t : ThreadRecord) → (change t).id ≡ t.id)
    → has_thread (update_threads change at threads) id ≡ has_thread threads id
unfolding get_thread
has_thread-update change at id [] same = refl
has_thread-update change at id (t ∷ threads) same =
    let rest = has_thread-update change at id threads same in ground (arith, rest, same t)

pub has_thread-delete :
    (gone id : Str) (threads : List ThreadRecord)
    → str_eq id gone ≡ false
    → has_thread (filter (λ (t : ThreadRecord). not (str_eq t.id gone)) threads) id
      ≡ has_thread threads id
unfolding get_thread
has_thread-delete gone id [] d = refl
has_thread-delete gone id (t ∷ threads) d =
    let rest = has_thread-delete gone id threads d in ground (arith, rest, str_eq_sound t.id id)

pub rows_of-delete :
    (gone id : Str) (rows : List MessageRow)
    → str_eq id gone ≡ false
    → rows_of id (filter (λ (m : MessageRow). not (str_eq m.thread_id gone)) rows) ≡ rows_of id rows
unfolding rows_of
rows_of-delete gone id [] d = refl
rows_of-delete gone id (m ∷ rows) d =
    let rest = rows_of-delete gone id rows d in ground (arith, rest, str_eq_sound m.thread_id id)

pub rows_of-gone :
    (gone : Str) (rows : List MessageRow)
    → rows_of gone (filter (λ (m : MessageRow). not (str_eq m.thread_id gone)) rows) ≡ []
unfolding rows_of
rows_of-gone gone [] = refl
rows_of-gone gone (m ∷ rows) = let rest = rows_of-gone gone rows in ground (arith, rest)

module _ {A : Type 0} (owner : A → Str) (threads : List ThreadRecord) where
  -- What is left when a thread is deleted still has its thread.
  pub left_behind :
      (gone : Str) (rows : List A)
      → All (λ m. has_thread threads (owner m) ≡ true) rows
      → All
          (λ m.
            has_thread (filter (λ (t : ThreadRecord). not (str_eq t.id gone)) threads) (owner m)
            ≡ true)
          (filter (λ m. not (str_eq (owner m) gone)) rows)
  left_behind gone [] a = tt
  left_behind gone (m ∷ rows) (e, a) = elim (Bool-cases (str_eq (owner m) gone)) [
    | inl is_gone ↦ rw (is_gone) (left_behind gone rows a)
    | inr stays ↦
        rw (stays) (has_thread-delete gone (owner m) threads stays ∙ e, left_behind gone rows a)
  ]

pub found_thread :
    (threads : List ThreadRecord) (id : Str) (t : ThreadRecord)
    → get_thread threads id ≡ some t
    → has_thread threads id ≡ true
found_thread threads id t h = rw (has_thread, h) refl
