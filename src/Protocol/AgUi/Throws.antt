-- ===== src/Protocol/AgUi/Throws.antt =====
-- packages/protocol/src/agui.ts: when the projection throws.
use open_source_harness.Common.{
  ℕ, Bool, ◌≡◌, ◌≢◌, ◌↔◌, refl, inl, inr, Option, none, some, Str, arith, Option-cases,
}
use open_source_harness.Protocol.Messages.{Unknown, undefined, null, string, object}
use open_source_harness.Protocol.Cost.{Amounts}
use open_source_harness.Protocol.Events.{
  WorkspaceEvent, Body, tool_call_started, tool_call_finished,
}
use open_source_harness.Protocol.AgUi.{
  Serialiser, stringified_or, stringify_result, stringify_args, started_call, finished_call,
  project, to_ag_ui,
}

module _ (amounts : Amounts) (serialiser : Serialiser) where
  open serialiser use {stringify, to_string}

  -- The event starts a tool call whose arguments are present and cannot be serialised, or it finishes
  -- one whose result is no text and can be neither serialised nor turned into a text.
  pub data IsUnserialisable : Body amounts → Type 0 where
    bad_args :
        (id name : Str) (args : Unknown)
        → args ≢ undefined
        → args ≢ null
        → stringify args ≡ none
        → IsUnserialisable (tool_call_started id name args)
    bad_result :
        (id : Str) (result : Unknown) (is_error : Bool)
        → ((s : Str) → result ≢ string s)
        → stringify result ≡ none
        → to_string result ≡ none
        → IsUnserialisable (tool_call_finished id result is_error)

  args_fail :
      (ts : ℕ) (id name : Str) (args : Unknown) (serialised : Option Str)
      → stringify_args amounts serialiser args ≡ serialised
      → started_call amounts serialiser ts id name serialised ≡ none
      → IsUnserialisable (tool_call_started id name args)
  args_fail ts id name args (some s) e h = absurd (ground arith)
  args_fail ts id name undefined none e h = absurd (ground arith)
  args_fail ts id name null none e h = absurd (ground arith)
  args_fail ts id name (string s) none e h = elim (Option-cases (stringify (string s))) [
    | inl fails ↦ bad_args id name (string s) (λ k. ground arith) (λ k. ground arith) fails
    | inr (t, reads) ↦ absurd (ground arith)
  ]
  args_fail ts id name (object n) none e h = elim (Option-cases (stringify (object n))) [
    | inl fails ↦ bad_args id name (object n) (λ k. ground arith) (λ k. ground arith) fails
    | inr (t, reads) ↦ absurd (ground arith)
  ]

  both_fail :
      (result : Unknown)
      → ((s : Str) → result ≢ string s)
      → stringified_or amounts serialiser (to_string result) (stringify result) ≡ none
      → (stringify result ≡ none) × (to_string result ≡ none)
  both_fail result plain h = elim (Option-cases (stringify result)) [
    | inl fails ↦ (fails, rw (fails) at h)
    | inr (t, reads) ↦ absurd (written (rw (reads) at h))
  ]
    where
      written : {s : Str} → some s ≡ none → ⊥
      written e = cc

  result_fails :
      (ts : ℕ) (id : Str) (result : Unknown) (is_error : Bool) (rendered : Option Str)
      → stringify_result amounts serialiser result ≡ rendered
      → finished_call amounts serialiser ts id rendered ≡ none
      → IsUnserialisable (tool_call_finished id result is_error)
  unfolding stringify_result
  result_fails ts id result is_error (some s) e h = absurd (ground arith)
  result_fails ts id (string s) is_error none e h = absurd (ground arith)
  result_fails ts id undefined is_error none e h =
      let (a, b) = both_fail undefined (λ s k. cc) e in
      bad_result id undefined is_error (λ s k. cc) a b
  result_fails ts id null is_error none e h =
      let (a, b) = both_fail null (λ s k. cc) e in bad_result id null is_error (λ s k. cc) a b
  result_fails ts id (object n) is_error none e h =
      let (a, b) = both_fail (object n) (λ s k. cc) e in
      bad_result id (object n) is_error (λ s k. cc) a b

  throws-IsUnserialisable :
      (event : WorkspaceEvent amounts) (thread_id : Str) (body : Body amounts)
      → project amounts serialiser thread_id event.run_id event.ts body ≡ none
      → IsUnserialisable body
  unfolding project
  throws-IsUnserialisable event thread_id (tool_call_started id name args) h =
      args_fail event.ts id name args _ refl h
  throws-IsUnserialisable event thread_id (tool_call_finished id result is_error) h =
      result_fails event.ts id result is_error _ refl h
  throws-IsUnserialisable event thread_id _ h = absurd (ground arith)

  args_throw :
      (args : Unknown)
      → args ≢ undefined
      → args ≢ null
      → stringify args ≡ none
      → stringify_args amounts serialiser args ≡ none
  args_throw undefined u n h = absurd (u refl)
  args_throw null u n h = absurd (n refl)
  args_throw (string s) u n h = rw (stringify_args, h) refl
  args_throw (object k) u n h = rw (stringify_args, h) refl

  result_throws :
      (result : Unknown)
      → ((s : Str) → result ≢ string s)
      → stringify result ≡ none
      → to_string result ≡ none
      → stringify_result amounts serialiser result ≡ none
  unfolding stringify_result
  result_throws (string s) plain h k = absurd (plain s refl)
  result_throws undefined plain h k = rw (stringify_result, h) k
  result_throws null plain h k = rw (stringify_result, h) k
  result_throws (object n) plain h k = rw (stringify_result, h) k

  IsUnserialisable-throws :
      (event : WorkspaceEvent amounts) (thread_id : Str) (body : Body amounts)
      → IsUnserialisable body
      → project amounts serialiser thread_id event.run_id event.ts body ≡ none
  unfolding project
  IsUnserialisable-throws event thread_id _ (bad_args id name args u n h) =
      rw (args_throw args u n h) refl
  IsUnserialisable-throws event thread_id _ (bad_result id result is_error plain h k) =
      rw (result_throws result plain h k) refl

  -- Of all events only those of a tool call make the projection throw: its start, exactly where the
  -- arguments are present and JSON.stringify throws on them, and its end, exactly where the result is
  -- no text and both JSON.stringify and the String behind its catch throw on it.
  pub to_ag_ui-throws_iff :
      (event : WorkspaceEvent amounts) (thread_id : Str)
      → (to_ag_ui amounts serialiser event thread_id ≡ none) ↔ IsUnserialisable event.body
  unfolding to_ag_ui
  to_ag_ui-throws_iff event thread_id = (
    throws-IsUnserialisable event thread_id event.body,
    IsUnserialisable-throws event thread_id event.body,
  )
