-- ===== src/Session/Manager/Calls.antt =====
-- packages/session/src/manager.ts: sequences of calls on a manager. The openings that wait stand in a
-- list, and any of them may be the next to go on.
use open_source_harness.Common.{ℕ, zero, suc, Option, none, some, List, [], ◌∷◌, ◌++◌, Str}
use open_source_harness.Protocol.Messages.{Message}
use open_source_harness.Protocol.Cost.{Amounts, CostBuckets}
use open_source_harness.Store.{
  Tables, create_thread, rename_thread, record_thread_cost, Codec, kept, created_in,
}
use open_source_harness.Session.Manager.{
  Opening, Manager, Began, throws, found, opens, begin_get, finish_get, forget_thread, dispose,
  store_message,
}

-- The opening at a place, and the others.
unfoldable pub pick : ℕ → List Opening → Option (Opening × List Opening)
pick n [] = none
pick zero (o ∷ openings) = some (o, openings)
pick (suc n) (o ∷ openings) = elim (pick n openings) [
  | none ↦ none
  | some (p, rest) ↦ some (p, o ∷ rest)
]

module _ (amounts : Amounts) (codec : Codec amounts) where
  pub data Call : Type 0 where
    begins : Str → Option Str → ℕ → Call
    finishes : ℕ → Call
    forgets : Str → Call
    disposes : Call
    -- `onMessage` and the cost events of a session, by its id
    says : Str → Message → ℕ → Call
    charges : Str → Str → Str → CostBuckets amounts → ℕ → Call
    creates : Option Str → Option Str → Str → ℕ → Call
    renames : Str → Str → ℕ → Call

  abbrev pub World : Type 0
  World = Manager × List Opening

  abbrev pub after_begin : World → Began → World
  after_begin (manager, openings) (throws left) = (left, openings)
  after_begin world (found session) = world
  after_begin (manager, openings) (opens opening left) = (left, openings ++ opening ∷ [])

  abbrev pub after_pick : World → Option (Opening × List Opening) → World
  after_pick world none = world
  after_pick (manager, openings) (some (opening, rest)) = ((finish_get manager opening).0, rest)

  -- A change of the tables, where there is a store; one that throws leaves them.
  abbrev pub changed : (Tables → Tables) → Option Tables → Option Tables
  changed change none = none
  changed change (some tables) = some (change tables)

  abbrev pub on_tables : (Tables → Tables) → Manager → Manager
  on_tables change manager = record manager { tables = changed change manager.tables }

  unfoldable pub step : World → Call → World
  unfolding begin_get finish_get forget_thread dispose store_message pick create_thread
      rename_thread record_thread_cost
  step (manager, openings) (begins id alias now) =
      after_begin (manager, openings) (begin_get amounts codec manager id alias now)
  step (manager, openings) (finishes n) = after_pick (manager, openings) (pick n openings)
  step (manager, openings) (forgets id) = (forget_thread manager id, openings)
  step (manager, openings) disposes = (dispose manager, openings)
  step (manager, openings) (says id message now) = (
    on_tables
        (λ tables. kept amounts codec tables (store_message amounts codec tables id message now))
        manager,
    openings,
  )
  step (manager, openings) (charges id run_id model buckets now) = (
    on_tables
        (λ tables.
          kept amounts codec tables
            (record_thread_cost amounts codec tables id run_id model buckets now))
        manager,
    openings,
  )
  step (manager, openings) (creates title alias random now) = (
    on_tables
        (λ tables.
          created_in amounts codec tables (create_thread tables none title alias random now))
        manager,
    openings,
  )
  step (manager, openings) (renames id title now) =
      (on_tables (λ tables. rename_thread tables id title now) manager, openings)

  unfoldable pub run : World → List Call → World
  unfolding step
  run world [] = world
  run world (call ∷ calls) = run (step world call) calls
