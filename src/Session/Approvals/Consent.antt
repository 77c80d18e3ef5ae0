-- ===== src/Session/Approvals/Consent.antt =====
-- packages/session/src/approvals.ts: silence is not consent, and a grant has a decision behind it.
use open_source_harness.Common.{
  ◌≡◌, ◌≢◌, ap, ◌⊎◌, inl, inr, Option, some, List, [], ◌∷◌, Str, str_eq_iff, arith, Option-cases,
}
use open_source_harness.Common.Dict.{get, values, get-put}
use open_source_harness.Protocol.Messages.{Unknown}
use open_source_harness.Session.Approvals.{
  ApprovalGate, PendingApproval, Verdict, ApprovalDecision, deny, allowed, denied, Call, requests,
  answers, expires, revokes, denies_all, init, settle, request, expire, entry_resolve, resolve,
  deny_each, step, run, verdict_of,
}
use open_source_harness.Session.Approvals.Invariant.{
  IsConsistent, FreshRun, Keyed-get, step-IsConsistent, init-IsConsistent,
}

-- A human answered the request, and did not deny it.
abbrev pub Answered : Str → List Call → Type 0
Answered id [] = ⊥
Answered id (c ∷ cs) = ((d : ApprovalDecision) × (c ≡ answers id d) × (d ≢ deny)) ⊎ Answered id cs

settle-denied :
    (id j : Str) (d : List (Str × Verdict))
    → get j (settle id denied d) ≡ some allowed
    → get j d ≡ some allowed
unfolding settle
settle-denied id j d h = ground (arith, get-put id j denied d, str_eq_iff id j)

settle-verdict :
    (id j : Str) (v : Verdict) (d : List (Str × Verdict))
    → get j (settle id v d) ≡ some allowed
    → (get j d ≡ some allowed) ⊎ ((id ≡ j) × (v ≡ allowed))
unfolding settle
settle-verdict id j v d h = ground (arith, get-put id j v d, str_eq_iff id j)

deny_each-settled :
    (entries : List PendingApproval) (gate : ApprovalGate) (j : Str)
    → get j (deny_each entries gate).settled ≡ some allowed
    → get j gate.settled ≡ some allowed
unfolding deny_each entry_resolve
deny_each-settled [] gate j h = h
deny_each-settled (e ∷ es) gate j h =
    settle-denied e.approval_id j gate.settled
      (deny_each-settled es (entry_resolve e deny gate) j h)

resolve-settled :
    (gate : ApprovalGate) (id j : Str) (d : ApprovalDecision)
    → IsConsistent gate
    → get j (resolve gate id d).0.settled ≡ some allowed
    → (get j gate.settled ≡ some allowed) ⊎ ((id ≡ j) × (d ≢ deny))
unfolding resolve
resolve-settled gate id j d c h = elim (Option-cases (get id gate.pending)) [
  | inl unknown ↦ inl (rw (unknown, resolve) at h)
  | inr (entry, e) ↦
      answered entry e
        (settle-verdict entry.approval_id j (verdict_of d) gate.settled (rw (e, resolve) at h))
]
  where
    answered :
        (entry : PendingApproval)
        → get id gate.pending ≡ some entry
        → (get j gate.settled ≡ some allowed) ⊎ ((entry.approval_id ≡ j) × (verdict_of d ≡ allowed))
        → (get j gate.settled ≡ some allowed) ⊎ ((id ≡ j) × (d ≢ deny))
    answered entry e (inl old) = inl old
    answered entry e (inr (same, yes_)) =
        let key : entry.approval_id ≡ id = Keyed-get id gate.pending entry c.keyed e in
        inr (cc, λ q. ground arith)

pub request-settled :
    (gate : ApprovalGate) (id reason : Str) (payload : Unknown) (scope : Option Str)
    → (request gate id reason payload scope).0.settled ≡ gate.settled
unfolding request
request-settled gate id reason payload scope = ground arith

expire-settled :
    (gate : ApprovalGate) (id j : Str)
    → get j (expire gate id).settled ≡ some allowed
    → get j gate.settled ≡ some allowed
unfolding expire
expire-settled gate id j h = elim (Option-cases (get id gate.pending)) [
  | inl gone ↦ rw (gone, expire) at h
  | inr (entry, e) ↦ settle-denied id j gate.settled (rw (e, expire) at h)
]

step-settled :
    (gate : ApprovalGate) (c : Call) (j : Str)
    → IsConsistent gate
    → get j (step gate c).settled ≡ some allowed
    → (get j gate.settled ≡ some allowed)
      ⊎ ((d : ApprovalDecision) × (c ≡ answers j d) × (d ≢ deny))
unfolding step
step-settled gate (requests id reason payload scope) j c h =
    inl (rw (request-settled gate id reason payload scope) at h)
step-settled gate (answers id d) j c h = elim (resolve-settled gate id j d c h) [
  | inl old ↦ inl old
  | inr (same, said) ↦ inr (d, ap (λ i. answers i d) same, said)
]
step-settled gate (expires id) j c h = inl (expire-settled gate id j h)
step-settled gate (revokes scope) j c h = inl h
step-settled gate denies_all j c h = inl (deny_each-settled (values gate.pending) gate j h)

run-settled :
    (gate : ApprovalGate) (cs : List Call) (j : Str)
    → FreshRun gate cs
    → IsConsistent gate
    → get j (run gate cs).settled ≡ some allowed
    → (get j gate.settled ≡ some allowed) ⊎ Answered j cs
unfolding run
run-settled gate [] j f c h = inl h
run-settled gate (x ∷ cs) j f c h =
    elim (run-settled (step gate x) cs j (f.1) (step-IsConsistent gate x (f.0) c) h) [
      | inr later ↦ inr (inr later)
      | inl now ↦ elim (step-settled gate x j c now) [
        | inl old ↦ inl old
        | inr here ↦ inr (inl here)
      ]
    ]

-- Silence is not consent: if a request that waited was allowed, then in the session's calls a human
-- answered that very request with a decision other than deny. A time-out or a shutdown never allows.
pub allowed_needs_answer :
    (cs : List Call) (id : Str)
    → FreshRun init cs
    → get id (run init cs).settled ≡ some allowed
    → Answered id cs
allowed_needs_answer cs id f h = elim (run-settled init cs id f init-IsConsistent h) [
  | inl old ↦ absurd (nothing old)
  | inr answered ↦ answered
]
  where
    nothing : get {V = Verdict} id [] ≡ some allowed → ⊥
    nothing e = unfold get in cc
