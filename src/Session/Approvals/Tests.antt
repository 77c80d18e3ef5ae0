-- ===== src/Session/Approvals/Tests.antt =====
-- packages/session/src/approvals.ts: a short session, and instances of the theorems.
use open_source_harness.Common.{◌≡◌, refl, Option, none, some, List, [], ◌∷◌, Str, codes, str_eq}
use open_source_harness.Common.Dict.{get, put, remove, member}
use open_source_harness.Protocol.Messages.{null}
use open_source_harness.Session.Approvals.{
  session, allowed, denied, Call, requests, answers, expires, revokes, init, request, run, step,
  list, granted_for_session, add_key, delete_key,
}
use open_source_harness.Session.Approvals.Invariant.{
  IsConsistent, FreshRun, run-IsConsistent, init-IsConsistent,
}
use open_source_harness.Session.Approvals.Consent.{Answered, allowed_needs_answer}
use open_source_harness.Session.Approvals.Grants.{GrantedIn, silent_allow_needs_grant}

sealed : Unit {0}
unfolding run request get put remove member str_eq add_key delete_key
sealed = tt

abbrev python : Option Str
python = some (codes "python")

-- Two requests wait; the first is answered for the session, the second times out.
abbrev opening : List Call
opening = requests (codes "a") [] null python ∷ requests (codes "b") [] null none ∷ []

abbrev calls : List Call
calls =
    requests (codes "a") [] null python
    ∷ requests (codes "b") [] null none
    ∷ answers (codes "a") session
    ∷ expires (codes "b")
    ∷ []

verdicts :
    (get (codes "a") (run init calls).settled ≡ some allowed)
    × (get (codes "b") (run init calls).settled ≡ some denied)
    × ((run init calls).pending ≡ [])
    × ((request (run init calls) (codes "c") [] null python).1 ≡ some allowed)
    × ((request (run init calls) (codes "c") [] null none).1 ≡ none)
unfolding sealed
verdicts = (refl, refl, refl, refl, refl)

shown :
    (granted_for_session (run init calls) ≡ codes "python" ∷ [])
    × (list (run init calls) ≡ [])
    × (granted_for_session (step (run init calls) (revokes (codes "python"))) ≡ [])
unfolding sealed granted_for_session list
shown = (refl, refl, refl)

calls-FreshRun : FreshRun init calls
unfolding sealed
calls-FreshRun = ((refl, refl), ((refl, refl), (tt, (tt, tt))))

opening-FreshRun : FreshRun init opening
unfolding sealed
opening-FreshRun = ((refl, refl), ((refl, refl), tt))

run-IsConsistent_example : IsConsistent (run init opening)
run-IsConsistent_example = run-IsConsistent init opening opening-FreshRun init-IsConsistent

allowed_needs_answer_example : Answered (codes "a") calls
allowed_needs_answer_example = allowed_needs_answer calls (codes "a") calls-FreshRun verdicts.0

silent_allow_needs_grant_example : (s : Str) × (python ≡ some s) × GrantedIn s init calls
silent_allow_needs_grant_example =
    silent_allow_needs_grant calls (codes "c") [] null python verdicts.3
