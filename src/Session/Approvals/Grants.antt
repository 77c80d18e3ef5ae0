-- ===== src/Session/Approvals/Grants.antt =====
-- packages/session/src/approvals.ts: what stands behind a grant for the session.
use open_source_harness.Common.{
  ◌≡◌, ◌≢◌, refl, ap, true, false, ◌⊎◌, inl, inr, Option, none, some, List, [], ◌∷◌, Str, str_eq,
  str_eq_iff, if◌then◌else◌, arith, Option-cases,
}
use open_source_harness.Common.Dict.{member-append, get, member, values}
use open_source_harness.Protocol.Messages.{Unknown}
use open_source_harness.Session.Approvals.{
  ApprovalGate, PendingApproval, ApprovalDecision, allow, deny, session, allowed, Call, requests,
  answers, expires, revokes, denies_all, init, request, expire, entry_resolve, resolve,
  revoke_scope, deny_each, step, run, present, is_granted, grants, add_key, delete_key,
}

-- The call answers a request of the scope `s` with consent for the session.
abbrev pub GrantsScope : Str → ApprovalGate → Call → Type 0
GrantsScope s gate c =
    (id : Str) × (entry : PendingApproval) × (c ≡ answers id session)
    × (get id gate.pending ≡ some entry)
    × (entry.scope ≡ some s)

abbrev pub NotRevoked : Str → List Call → Type 0
NotRevoked s [] = Unit
NotRevoked s (c ∷ cs) = (c ≢ revokes s) × NotRevoked s cs

-- At some point of the session a human granted the scope, and nobody withdrew it after that.
abbrev pub GrantedIn : Str → ApprovalGate → List Call → Type 0
GrantedIn s gate [] = ⊥
GrantedIn s gate (c ∷ cs) = (GrantsScope s gate c × NotRevoked s cs) ⊎ GrantedIn s (step gate c) cs

member-add_key :
    (k j : Str) (ks : List Str) → member j (add_key k ks) ≡ true → (k ≡ j) ⊎ (member j ks ≡ true)
unfolding add_key member
member-add_key k j ks h = ground (arith, member-append j ks (k ∷ []), str_eq_iff k j)

member-delete_key :
    (k j : Str) (ks : List Str)
    → member j (delete_key k ks) ≡ (if str_eq k j then false else member j ks)
unfolding delete_key member
member-delete_key k j [] = ground arith
member-delete_key k j (i ∷ ks) =
    ground (arith, member-delete_key k j ks, str_eq_iff i k, str_eq_iff i j, str_eq_iff k j)

grants-scope :
    (d : ApprovalDecision) (scope : Option Str) (ks : List Str) (s : Str)
    → member s (grants d scope ks) ≡ true
    → (member s ks ≡ true) ⊎ ((d ≡ session) × (scope ≡ some s))
grants-scope session (some t) ks s h = elim (member-add_key t s ks h) [
  | inl same ↦ inr (refl, ap some same)
  | inr old ↦ inl old
]
grants-scope session none ks s h = inl h
grants-scope allow scope ks s h = inl h
grants-scope deny scope ks s h = inl h

resolve-granted :
    (gate : ApprovalGate) (id s : Str) (d : ApprovalDecision)
    → member s (resolve gate id d).0.granted_scopes ≡ true
    → (member s gate.granted_scopes ≡ true) ⊎ GrantsScope s gate (answers id d)
unfolding resolve
resolve-granted gate id s d h = elim (Option-cases (get id gate.pending)) [
  | inl unknown ↦ inl (rw (unknown, resolve) at h)
  | inr (entry, e) ↦
      elim (grants-scope d entry.scope gate.granted_scopes s (rw (e, resolve) at h)) [
        | inl old ↦ inl old
        | inr (forever, scoped) ↦ inr (id, entry, ap (answers id) forever, e, scoped)
      ]
]

deny_each-granted :
    (entries : List PendingApproval) (gate : ApprovalGate)
    → (deny_each entries gate).granted_scopes ≡ gate.granted_scopes
unfolding deny_each entry_resolve
deny_each-granted [] gate = refl
deny_each-granted (e ∷ es) gate = deny_each-granted es (entry_resolve e deny gate)

request-granted :
    (gate : ApprovalGate) (id reason : Str) (payload : Unknown) (scope : Option Str)
    → (request gate id reason payload scope).0.granted_scopes ≡ gate.granted_scopes
unfolding request
request-granted gate id reason payload scope = ground arith

expire-granted :
    (gate : ApprovalGate) (id : Str) → (expire gate id).granted_scopes ≡ gate.granted_scopes
unfolding expire
expire-granted gate id = ground arith

step-granted :
    (gate : ApprovalGate) (c : Call) (s : Str)
    → member s (step gate c).granted_scopes ≡ true
    → ((member s gate.granted_scopes ≡ true) × (c ≢ revokes s)) ⊎ GrantsScope s gate c
unfolding step revoke_scope
step-granted gate (requests id reason payload scope) s h =
    inl (rw (request-granted gate id reason payload scope) at h, λ e. cc)
step-granted gate (answers id d) s h = elim (resolve-granted gate id s d h) [
  | inl old ↦ inl (old, λ e. cc)
  | inr new ↦ inr new
]
step-granted gate (expires id) s h = inl (rw (expire-granted gate id) at h, λ e. cc)
step-granted gate (revokes t) s h =
    inl (ground (arith, member-delete_key t s gate.granted_scopes), λ e. still e)
  where
    still : revokes t ≡ revokes s → ⊥
    still e = ground (arith, member-delete_key t s gate.granted_scopes, str_eq_iff t s)
step-granted gate denies_all s h =
    inl (rw (deny_each-granted (values gate.pending) gate) at h, λ e. cc)

run-granted :
    (gate : ApprovalGate) (cs : List Call) (s : Str)
    → member s (run gate cs).granted_scopes ≡ true
    → ((member s gate.granted_scopes ≡ true) × NotRevoked s cs) ⊎ GrantedIn s gate cs
unfolding run
run-granted gate [] s h = inl (h, tt)
run-granted gate (c ∷ cs) s h = elim (run-granted (step gate c) cs s h) [
  | inr later ↦ inr (inr later)
  | inl (now, kept) ↦ elim (step-granted gate c s now) [
    | inl (old, other) ↦ inl (old, (other, kept))
    | inr here ↦ inr (inl (here, kept))
  ]
]

is_granted-scope :
    (scope : Option Str) (granted : List Str)
    → is_granted (present scope) granted ≡ true
    → (s : Str) × (scope ≡ some s) × (member s granted ≡ true)
is_granted-scope none granted h = cc
is_granted-scope (some []) granted h = cc
is_granted-scope (some (c ∷ s)) granted h = (c ∷ s, refl, h)

-- A request is allowed without asking only in a scope that a human granted for the session, by
-- answering a waiting request of that scope, and that has not been revoked since.
pub silent_allow_needs_grant :
    (cs : List Call) (id reason : Str) (payload : Unknown) (scope : Option Str)
    → (request (run init cs) id reason payload scope).1 ≡ some allowed
    → (s : Str) × (scope ≡ some s) × GrantedIn s init cs
unfolding request
silent_allow_needs_grant cs id reason payload scope h =
    let granted : is_granted (present scope) (run init cs).granted_scopes ≡ true = ground arith in
    let (s, scoped, has) = is_granted-scope scope (run init cs).granted_scopes granted in
    (s, scoped, from_start s (run-granted init cs s has))
  where
    from_start :
        (s : Str)
        → ((member s init.granted_scopes ≡ true) × NotRevoked s cs) ⊎ GrantedIn s init cs
        → GrantedIn s init cs
    from_start s (inl (old, kept)) = unfold member in cc
    from_start s (inr granted) = granted
