-- ===== src/Session/Manager/Linked.antt =====
-- packages/session/src/manager.ts: what holds of a manager after any sequence of calls.
use open_source_harness.Common.{
  ℕ, suc, ◌<◌, ◌≡◌, refl, sym, inl, inr, true, Option, none, some, List, [], ◌∷◌, Str, str_eq, trim,
  str_eq_refl, str_eq_sound, Bool-cases, All, All-weaken, arith,
}
use open_source_harness.Common.Dict.{
  get, put, remove, keys, Distinct, put-Distinct, remove-Distinct,
}
use open_source_harness.Protocol.Messages.{Message}
use open_source_harness.Protocol.Cost.{Amounts}
use open_source_harness.Store.{ThreadRecord, Tables, Codec, deletes, records_cost, store_call}
use open_source_harness.Store.Invariant.{IsSound, kept-IsSound}
use open_source_harness.Session.Manager.{
  Session, Opening, Manager, Began, throws, found, opens, truthy, with_history, with_row,
  with_store, found_or_opened, begin_get, finish_get, forget_thread, without_thread, dispose,
}
use open_source_harness.Session.Manager.Calls
use open_source_harness.Session.Manager.Calls.{
  Call, World, pick, after_begin, after_pick, changed, on_tables, step, run,
}
use open_source_harness.Session.Manager.Sound.{
  after_call, create-IsSound, rename-IsSound, switched-IsSound, store_message-IsSound,
  created_row-IsSound,
}

module _ {V : Type 0} (P : Str → V → Type 0) where
  abbrev AllEntries : List (Str × V) → Type 0
  AllEntries d = All (λ (e : Str × V). P (e.0) (e.1)) d

  put-AllEntries :
      (k : Str) (v : V) (d : List (Str × V))
      → ((j : Str) → str_eq j k ≡ true → P j v)
      → AllEntries d
      → AllEntries (put k v d)
  unfolding put
  put-AllEntries k v [] p h = (p k (str_eq_refl k), tt)
  put-AllEntries k v ((j, w) ∷ d) p (h, hs) = elim (Bool-cases (str_eq j k)) [
    | inl same ↦ rw (same) (p j same, hs)
    | inr other ↦ rw (other) (h, put-AllEntries k v d p hs)
  ]

  remove-AllEntries : (k : Str) (d : List (Str × V)) → AllEntries d → AllEntries (remove k d)
  unfolding remove
  remove-AllEntries k [] h = tt
  remove-AllEntries k ((j, w) ∷ d) (h, hs) = elim (Bool-cases (str_eq j k)) [
    | inl same ↦ rw (same) (remove-AllEntries k d hs)
    | inr other ↦ rw (other) (h, remove-AllEntries k d hs)
  ]

abbrev SoundIn : Option Tables → Type 0
SoundIn none = Unit
SoundIn (some tables) = IsSound tables

-- Each session stands once, under its own id, its number is below the count of those that were made,
-- and the store is sound.
pub record IsLinked (manager : Manager) : Type 0 where
  pub keyed : All (λ (e : Str × Session). e.1.id ≡ e.0) manager.sessions
  pub once : Distinct (keys manager.sessions)
  pub numbered : All (λ (e : Str × Session). e.1.number < manager.made) manager.sessions
  pub sound : SoundIn manager.tables

with_tables :
    (manager : Manager) (tables : Option Tables)
    → IsLinked manager
    → SoundIn tables
    → IsLinked (record manager { tables = tables })
with_tables manager tables w s = record {
  keyed = w.keyed;
  once = w.once;
  numbered = w.numbered;
  sound = s;
}

finish_get-IsLinked :
    (manager : Manager) (opening : Opening)
    → IsLinked manager
    → IsLinked (finish_get manager opening).0
unfolding finish_get
finish_get-IsLinked manager opening w = record {
  keyed =
      put-AllEntries (λ k (s : Session). s.id ≡ k) opening.id _ manager.sessions
        (λ j same. sym (str_eq_sound j opening.id same)) w.keyed;
  once = put-Distinct opening.id _ manager.sessions w.once;
  numbered =
      put-AllEntries (λ k (s : Session). s.number < suc manager.made) opening.id _ manager.sessions
        (λ j same. omega arith)
        (All-weaken _ _ (λ e (h : e.1.number < manager.made). omega (arith, h)) manager.sessions
          w.numbered);
  sound = w.sound;
}

module _ (amounts : Amounts) (codec : Codec amounts) where
  forget_thread-IsLinked :
      (manager : Manager) (id : Str) → IsLinked manager → IsLinked (forget_thread manager id)
  unfolding forget_thread
  forget_thread-IsLinked manager id w = record {
    keyed = remove-AllEntries (λ k (s : Session). s.id ≡ k) id manager.sessions w.keyed;
    once = remove-Distinct id manager.sessions w.once;
    numbered =
        remove-AllEntries (λ k (s : Session). s.number < manager.made) id manager.sessions
          w.numbered;
    sound = without manager.tables w.sound;
  }
    where
      without : (tables : Option Tables) → SoundIn tables → SoundIn (without_thread id tables)
      without none s = tt
      without (some tables) s = unfold store_call in after_call amounts codec tables (deletes id) s

  dispose-IsLinked : (manager : Manager) → IsLinked manager → IsLinked (dispose manager)
  unfolding dispose
  dispose-IsLinked manager w = record { keyed = tt; once = tt; numbered = tt; sound = w.sound }

  -- A change of the tables that keeps them sound keeps the manager linked.
  on_tables-IsLinked :
      (change : Tables → Tables) (manager : Manager)
      → ((tables : Tables) → IsSound tables → IsSound (change tables))
      → IsLinked manager
      → IsLinked (on_tables amounts codec change manager)
  on_tables-IsLinked change manager keeps w =
      with_tables manager _ w (lifted manager.tables w.sound)
    where
      lifted :
          (tables : Option Tables) → SoundIn tables → SoundIn (changed amounts codec change tables)
      lifted none s = tt
      lifted (some tables) s = keeps tables s

  -- What an opening that has begun leaves in the store is sound.
  abbrev LeftLinked : Began → Type 0
  LeftLinked (throws manager) = IsLinked manager
  LeftLinked (found session) = Unit
  LeftLinked (opens opening manager) = IsLinked manager

  with_history-LeftLinked :
      (manager : Manager) (id : Str) (alias : Option Str) (stored : Str) (tables : Tables)
      (history : Option (List Message))
      → IsLinked (record manager { tables = some tables })
      → LeftLinked (with_history amounts codec manager id alias stored tables history)
  with_history-LeftLinked manager id alias stored tables none w = w
  with_history-LeftLinked manager id alias stored tables (some history) w = w

  with_row-LeftLinked :
      (manager : Manager) (id : Str) (alias : Option Str) (now : ℕ)
      (row : Option (Tables × ThreadRecord))
      → IsLinked manager
      → ((made : Tables × ThreadRecord) → row ≡ some made → IsSound made.0)
      → LeftLinked (with_row amounts codec manager id alias now row)
  with_row-LeftLinked manager id alias now none w s = w
  with_row-LeftLinked manager id alias now (some (tables, thread)) w s =
      with_history-LeftLinked manager id alias thread.model_alias _ _ (
        with_tables manager _ w (
          switched-IsSound amounts codec tables id (truthy alias) thread.model_alias now
            (s (tables, thread) refl)))

  with_store-LeftLinked :
      (manager : Manager) (id : Str) (alias : Option Str) (now : ℕ) (tables : Option Tables)
      → IsLinked manager
      → SoundIn tables
      → LeftLinked (with_store amounts codec manager id alias now tables)
  with_store-LeftLinked manager id alias now none w s = w
  with_store-LeftLinked manager id alias now (some tables) w s =
      with_row-LeftLinked manager id alias now _ w
        (λ made h. created_row-IsSound amounts codec tables id (truthy alias) now _ made h s)

  begin_get-LeftLinked :
      (manager : Manager) (id : Str) (alias : Option Str) (now : ℕ)
      → IsLinked manager
      → LeftLinked (begin_get amounts codec manager id alias now)
  unfolding begin_get
  begin_get-LeftLinked manager id alias now w = elim (Bool-cases (str_eq (trim id) [])) [
    | inl blank ↦ rw (blank) w
    | inr named ↦ rw (named) (looked_up (get id manager.sessions))
  ]
    where
      looked_up :
          (o : Option Session) → LeftLinked (found_or_opened amounts codec manager id alias now o)
      looked_up none = with_store-LeftLinked manager id alias now manager.tables w w.sound
      looked_up (some session) = tt

  after_begin-IsLinked :
      (manager : Manager) (openings : List Opening) (began : Began)
      → IsLinked manager
      → LeftLinked began
      → IsLinked (after_begin amounts codec (manager, openings) began).0
  after_begin-IsLinked manager openings (throws left) w l = l
  after_begin-IsLinked manager openings (found session) w l = w
  after_begin-IsLinked manager openings (opens opening left) w l = l

  after_pick-IsLinked :
      (manager : Manager) (openings : List Opening) (o : Option (Opening × List Opening))
      → IsLinked manager
      → IsLinked (after_pick amounts codec (manager, openings) o).0
  after_pick-IsLinked manager openings none w = w
  after_pick-IsLinked manager openings (some (opening, rest)) w =
      finish_get-IsLinked manager opening w

  step-IsLinked :
      (manager : Manager) (openings : List Opening) (call : Call amounts codec)
      → IsLinked manager
      → IsLinked (step amounts codec (manager, openings) call).0
  unfolding step
  step-IsLinked manager openings (Calls.begins id alias now) w =
      after_begin-IsLinked manager openings _ w (begin_get-LeftLinked manager id alias now w)
  step-IsLinked manager openings (Calls.finishes n) w = after_pick-IsLinked manager openings _ w
  step-IsLinked manager openings (Calls.forgets id) w = forget_thread-IsLinked manager id w
  step-IsLinked manager openings Calls.disposes w = dispose-IsLinked manager w
  step-IsLinked manager openings (Calls.says id message now) w =
      on_tables-IsLinked _ manager
        (λ tables s.
          kept-IsSound amounts codec tables _
            (λ after h. store_message-IsSound amounts codec tables after id message now h s) s)
        w
  step-IsLinked manager openings (Calls.charges id run_id model buckets now) w =
      on_tables-IsLinked _ manager
        (λ tables s.
          unfold store_call in
          after_call amounts codec tables (records_cost id run_id model buckets now) s)
        w
  step-IsLinked manager openings (Calls.creates title alias random now) w =
      on_tables-IsLinked _ manager
        (λ tables s. create-IsSound amounts codec tables none title alias random now s) w
  step-IsLinked manager openings (Calls.renames id title now) w =
      on_tables-IsLinked _ manager (λ tables s. rename-IsSound amounts codec tables id title now s)
        w

  -- However calls of a manager that is linked follow on each other, with openings that go on in any
  -- order, the manager stays linked: each session stands once and under its own id, its number is
  -- below that of the next session to be made, and the store, where there is one, stays sound.
  pub run-IsLinked :
      (world : World amounts codec) (calls : List (Call amounts codec))
      → IsLinked world.0
      → IsLinked (run amounts codec world calls).0
  unfolding run
  run-IsLinked world [] w = w
  run-IsLinked world (call ∷ calls) w =
      run-IsLinked (step amounts codec world call) calls (step-IsLinked (world.0) world.1 call w)
