-- ===== src/Session/Approvals/Invariant.antt =====
-- packages/session/src/approvals.ts: a request is awaited or settled, never both.
use open_source_harness.Common.{
  ◌≡◌, refl, true, false, ◌⊎◌, inl, inr, Option, some, List, [], ◌∷◌, Str, str_eq_iff, arith,
  Bool-cases, Option-cases,
}
use open_source_harness.Common.Dict.{
  get, put, remove, member, keys, values, Distinct, put-Distinct, remove-Distinct, member-keys-put,
  member-keys-remove,
}
use open_source_harness.Protocol.Messages.{Unknown}
use open_source_harness.Session.Approvals.{
  ApprovalGate, PendingApproval, Verdict, ApprovalDecision, deny, denied, Call, requests, answers,
  expires, revokes, denies_all, init, settle, request, expire, entry_resolve, resolve, deny_each,
  step, run, present, is_granted, entry_for, verdict_of,
}

-- Every entry stands under its own id.
abbrev pub Keyed : List (Str × PendingApproval) → Type 0
Keyed [] = Unit
Keyed ((k, e) ∷ d) = (e.approval_id ≡ k) × Keyed d

pub record IsConsistent (gate : ApprovalGate) : Type 0 where
  pub keyed : Keyed gate.pending
  pub pending_once : Distinct (keys gate.pending)
  pub settled_once : Distinct (keys gate.settled)
  pub apart :
      (id : Str) → member id (keys gate.pending) ≡ true → member id (keys gate.settled) ≡ false

-- `randomUUID` makes an id that the gate has not seen.
abbrev pub Fresh : ApprovalGate → Call → Type 0
Fresh gate (requests id reason payload scope) =
    (member id (keys gate.pending) ≡ false) × (member id (keys gate.settled) ≡ false)
Fresh gate _ = Unit

abbrev pub FreshRun : ApprovalGate → List Call → Type 0
FreshRun gate [] = Unit
FreshRun gate (c ∷ cs) = Fresh gate c × FreshRun (step gate c) cs

Keyed-put :
    (id : Str) (e : PendingApproval) (d : List (Str × PendingApproval))
    → e.approval_id ≡ id
    → Keyed d
    → Keyed (put id e d)
unfolding put
Keyed-put id e [] h k = (h, tt)
Keyed-put id e ((j, w) ∷ d) h k = ground (arith, Keyed-put id e d h (k.1), str_eq_iff j id)

Keyed-remove : (id : Str) (d : List (Str × PendingApproval)) → Keyed d → Keyed (remove id d)
unfolding remove
Keyed-remove id [] k = tt
Keyed-remove id ((j, w) ∷ d) k = ground (arith, Keyed-remove id d (k.1))

pub Keyed-get :
    (id : Str) (d : List (Str × PendingApproval)) (e : PendingApproval)
    → Keyed d
    → get id d ≡ some e
    → e.approval_id ≡ id
unfolding get
Keyed-get id [] e k h = cc
Keyed-get id ((j, w) ∷ d) e k h = ground (arith, Keyed-get id d e (k.1), str_eq_iff j id)

settle-Distinct :
    (id : Str) (v : Verdict) (d : List (Str × Verdict))
    → Distinct (keys d)
    → Distinct (keys (settle id v d))
unfolding settle
settle-Distinct id v d h = ground (arith, put-Distinct id v d h)

member-keys-settle :
    (id j : Str) (v : Verdict) (d : List (Str × Verdict))
    → member j (keys (settle id v d)) ≡ true
    → (id ≡ j) ⊎ (member j (keys d) ≡ true)
unfolding settle
member-keys-settle id j v d h = ground (arith, member-keys-put id j v d, str_eq_iff id j)

-- Taking an entry out and settling its promise.
closed-IsConsistent :
    (gate after : ApprovalGate) (id : Str) (v : Verdict)
    → after.pending ≡ remove id gate.pending
    → after.settled ≡ settle id v gate.settled
    → IsConsistent gate
    → IsConsistent after
closed-IsConsistent gate after id v p s c = record {
  keyed = rw p (Keyed-remove id gate.pending c.keyed);
  pending_once = rw p (remove-Distinct id gate.pending c.pending_once);
  settled_once = rw s (settle-Distinct id v gate.settled c.settled_once);
  apart = λ j h. rw s (apart_after j (rw p at h));
}
  where
    apart_after :
        (j : Str)
        → member j (keys (remove id gate.pending)) ≡ true
        → member j (keys (settle id v gate.settled)) ≡ false
    apart_after j h = ground (
      arith,
      member-keys-remove id j gate.pending,
      member-keys-settle id j v gate.settled,
      c.apart j,
      str_eq_iff id j,
    )

entry_resolve-IsConsistent :
    (entry : PendingApproval) (decision : ApprovalDecision) (gate : ApprovalGate)
    → IsConsistent gate
    → IsConsistent (entry_resolve entry decision gate)
unfolding entry_resolve
entry_resolve-IsConsistent entry decision gate c =
    closed-IsConsistent gate _ entry.approval_id (verdict_of decision) refl refl c

deny_each-IsConsistent :
    (entries : List PendingApproval) (gate : ApprovalGate)
    → IsConsistent gate
    → IsConsistent (deny_each entries gate)
unfolding deny_each
deny_each-IsConsistent [] gate c = c
deny_each-IsConsistent (e ∷ es) gate c =
    deny_each-IsConsistent es (entry_resolve e deny gate) (entry_resolve-IsConsistent e deny gate c)

request-IsConsistent :
    (gate : ApprovalGate) (id reason : Str) (payload : Unknown) (scope : Option Str)
    → Fresh gate (requests id reason payload scope)
    → IsConsistent gate
    → IsConsistent (request gate id reason payload scope).0
unfolding request
request-IsConsistent gate id reason payload scope f c =
    elim (Bool-cases (is_granted (present scope) gate.granted_scopes)) [
      | inl granted ↦ rw granted c
      | inr asked ↦ rw asked (record {
        keyed = Keyed-put id _ gate.pending refl c.keyed;
        pending_once = put-Distinct id _ gate.pending c.pending_once;
        settled_once = c.settled_once;
        apart = λ j h. apart_after j h;
      })
    ]
  where
    apart_after :
        (j : Str)
        → member j (keys (put id (entry_for id reason payload scope) gate.pending)) ≡ true
        → member j (keys gate.settled) ≡ false
    apart_after j h = ground (
      arith,
      member-keys-put id j (entry_for id reason payload scope) gate.pending,
      c.apart j,
      str_eq_iff id j,
    )

resolve-IsConsistent :
    (gate : ApprovalGate) (id : Str) (decision : ApprovalDecision)
    → IsConsistent gate
    → IsConsistent (resolve gate id decision).0
unfolding resolve
resolve-IsConsistent gate id decision c = elim (Option-cases (get id gate.pending)) [
  | inl unknown ↦ rw (unknown, resolve) c
  | inr (entry, e) ↦
      rw (e, resolve)
        (closed-IsConsistent gate _ entry.approval_id (verdict_of decision) refl refl c)
]

expire-IsConsistent :
    (gate : ApprovalGate) (id : Str) → IsConsistent gate → IsConsistent (expire gate id)
unfolding expire
expire-IsConsistent gate id c = elim (Option-cases (get id gate.pending)) [
  | inl gone ↦ rw (gone, expire) c
  | inr (entry, e) ↦ rw (e, expire) (closed-IsConsistent gate _ id denied refl refl c)
]

-- Every call keeps the gate consistent: entries under their own ids, no id twice among the awaited
-- or among the settled requests, and none in both.
pub step-IsConsistent :
    (gate : ApprovalGate) (c : Call) → Fresh gate c → IsConsistent gate → IsConsistent (step gate c)
unfolding step
step-IsConsistent gate (requests id reason payload scope) f c =
    request-IsConsistent gate id reason payload scope f c
step-IsConsistent gate (answers id decision) f c = resolve-IsConsistent gate id decision c
step-IsConsistent gate (expires id) f c = expire-IsConsistent gate id c
step-IsConsistent gate (revokes scope) f c = record {
  keyed = c.keyed;
  pending_once = c.pending_once;
  settled_once = c.settled_once;
  apart = c.apart;
}
step-IsConsistent gate denies_all f c = deny_each-IsConsistent (values gate.pending) gate c

pub init-IsConsistent : IsConsistent init
unfolding member
init-IsConsistent = record { keyed = tt; pending_once = tt; settled_once = tt; apart = λ id h. cc }

-- A gate that is consistent (entries under their own ids, no id twice among the awaited or among the
-- settled requests, and none in both) is still consistent after any sequence of calls in which each
-- request has an id that is not in the gate, awaited or settled, when it is made.
pub run-IsConsistent :
    (gate : ApprovalGate) (cs : List Call)
    → FreshRun gate cs
    → IsConsistent gate
    → IsConsistent (run gate cs)
unfolding run
run-IsConsistent gate [] f c = c
run-IsConsistent gate (x ∷ cs) f c =
    run-IsConsistent (step gate x) cs (f.1) (step-IsConsistent gate x (f.0) c)
