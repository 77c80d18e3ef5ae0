-- ===== src/Session/Approvals/Shutdown.antt =====
-- packages/session/src/approvals.ts, denyAll: a shutdown leaves nobody waiting.
use open_source_harness.Common.{
  ◌≡◌, refl, true, inl, inr, none, some, List, [], ◌∷◌, Str, str_eq, str_eq_iff, str_eq_refl, arith,
  Option-cases, if◌then◌else◌, All,
}
use open_source_harness.Common.Dict.{
  get, remove, member, keys, values, get-put, get-eq-none, remove_absent, Distinct,
}
use open_source_harness.Session.Approvals.{
  ApprovalGate, PendingApproval, Verdict, deny, denied, settle, entry_resolve, deny_each, deny_all,
  ApprovalDecision, Call, requests, answers, expires, revokes, denies_all, step, run, resolve,
  expire, revoke_scope, verdict_of,
}
use open_source_harness.Session.Approvals.Invariant.{IsConsistent, Keyed}
use open_source_harness.Session.Approvals.Consent.{request-settled}

get-settle :
    (id j : Str) (v : Verdict) (d : List (Str × Verdict))
    → get j (settle id v d)
      ≡ (if str_eq id j then (elim (get j d) [ none ↦ some v | some w ↦ some w ]) else get j d)
unfolding settle
get-settle id j v d = ground (arith, get-put id j v d, str_eq_iff id j)

-- A promise that has settled stays as it is.
settle_stays :
    (id j : Str) (v w : Verdict) (d : List (Str × Verdict))
    → get j d ≡ some w
    → get j (settle id v d) ≡ some w
settle_stays id j v w d h = ground (arith, get-settle id j v d)

deny_each_stays :
    (entries : List PendingApproval) (gate : ApprovalGate) (j : Str) (w : Verdict)
    → get j gate.settled ≡ some w
    → get j (deny_each entries gate).settled ≡ some w
unfolding deny_each entry_resolve
deny_each_stays [] gate j w h = h
deny_each_stays (e ∷ es) gate j w h =
    deny_each_stays es (entry_resolve e deny gate) j w
      (settle_stays e.approval_id j denied w gate.settled h)

-- Denying each entry of a map in turn empties it.
deny_each-pending :
    (d : List (Str × PendingApproval)) (gate : ApprovalGate)
    → gate.pending ≡ d
    → Keyed d
    → Distinct (keys d)
    → (deny_each (values d) gate).pending ≡ []
unfolding deny_each entry_resolve remove
deny_each-pending [] gate e k u = e
deny_each-pending ((i, w) ∷ d) gate e k u =
    deny_each-pending d (entry_resolve w deny gate) gone k.1 u.1
  where
    gone : remove w.approval_id gate.pending ≡ d
    gone = ground (arith, remove_absent i d, str_eq_refl i)

deny_each-denies :
    (d : List (Str × PendingApproval)) (gate : ApprovalGate)
    → Keyed d
    → Distinct (keys d)
    → ((id : Str) → member id (keys d) ≡ true → get id gate.settled ≡ none)
    → All (λ id. get id (deny_each (values d) gate).settled ≡ some denied) (keys d)
unfolding deny_each entry_resolve member
deny_each-denies [] gate k u open_ = tt
deny_each-denies ((i, w) ∷ d) gate k u open_ = (
  deny_each_stays (values d) (entry_resolve w deny gate) i denied
      (ground (arith, get-settle w.approval_id i denied gate.settled, open_ i, str_eq_refl i)),
  deny_each-denies d (entry_resolve w deny gate) k.1 u.1 λ j h.
      ground (arith, get-settle w.approval_id j denied gate.settled, open_ j, str_eq_iff i j),
)

-- After a shutdown of a consistent gate no request waits, and each request that was waiting has
-- been denied.
pub deny_all_settles :
    (gate : ApprovalGate)
    → IsConsistent gate
    → ((deny_all gate).pending ≡ [])
      × All (λ id. get id (deny_all gate).settled ≡ some denied) (keys gate.pending)
unfolding deny_all
deny_all_settles gate c = (
  deny_each-pending gate.pending gate refl c.keyed c.pending_once,
  deny_each-denies gate.pending gate c.keyed c.pending_once
      λ id h. get-eq-none id gate.settled (c.apart id h),
)

resolve_stays :
    (gate : ApprovalGate) (j : Str) (d : ApprovalDecision) (id : Str) (v : Verdict)
    → get id gate.settled ≡ some v
    → get id (resolve gate j d).0.settled ≡ some v
unfolding resolve
resolve_stays gate j d id v h = elim (Option-cases (get j gate.pending)) [
  | inl unknown ↦ rw (unknown, resolve) h
  | inr (entry, e) ↦
      rw (e, resolve) (settle_stays entry.approval_id id (verdict_of d) v gate.settled h)
]

expire_stays :
    (gate : ApprovalGate) (j id : Str) (v : Verdict)
    → get id gate.settled ≡ some v
    → get id (expire gate j).settled ≡ some v
unfolding expire
expire_stays gate j id v h = elim (Option-cases (get j gate.pending)) [
  | inl gone ↦ rw (gone, expire) h
  | inr (entry, e) ↦ rw (e, expire) (settle_stays j id denied v gate.settled h)
]

-- A verdict that a request has received is never changed by a later call.
step_stays :
    (gate : ApprovalGate) (c : Call) (id : Str) (v : Verdict)
    → get id gate.settled ≡ some v
    → get id (step gate c).settled ≡ some v
unfolding step
step_stays gate (requests j reason payload scope) id v h =
    rw (request-settled gate j reason payload scope) h
step_stays gate (answers j d) id v h = resolve_stays gate j d id v h
step_stays gate (expires j) id v h = expire_stays gate j id v h
step_stays gate (revokes s) id v h = unfold revoke_scope in h
step_stays gate denies_all id v h =
    unfold deny_all in deny_each_stays (values gate.pending) gate id v h

-- A verdict that a request has received is final: no later call of the session changes it.
pub verdict_is_final :
    (gate : ApprovalGate) (cs : List Call) (id : Str) (v : Verdict)
    → get id gate.settled ≡ some v
    → get id (run gate cs).settled ≡ some v
unfolding run
verdict_is_final gate [] id v h = h
verdict_is_final gate (c ∷ cs) id v h =
    verdict_is_final (step gate c) cs id v (step_stays gate c id v h)
