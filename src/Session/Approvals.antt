-- ===== src/Session/Approvals.antt =====
-- packages/session/src/approvals.ts: the human-in-the-loop gate.
-- A promise that `request` returned is settled by an entry of `settled`; a promise settles once.
-- The ids that `randomUUID` makes are arguments, and the time stamps of events are left out.
pub mod Invariant
pub mod Consent
pub mod Grants
pub mod Shutdown
pub mod Tests
use open_source_harness.Common.{
  Bool, true, false, not, ◌&&◌, ◌||◌, Option, none, some, List, [], ◌∷◌, ◌++◌, Str, str_eq,
  if◌then◌else◌, filter,
}
use open_source_harness.Common.Dict.{get, put, remove, member, values}
use open_source_harness.Protocol.Messages.{Unknown}

pub data ApprovalDecision : Type 0 where
  allow deny session : ApprovalDecision

-- What a promise of `request` resolves to.
pub data Verdict : Type 0 where
  allowed denied : Verdict

pub record PendingApproval : Type 0 where
  pub approval_id : Str
  pub tool_call_id : Str
  pub reason : Str
  pub irreversible : Bool
  pub payload : Unknown
  pub scope : Option Str

pub data GateEvent : Type 0 where
  approval_requested : PendingApproval → GateEvent
  approval_resolved : Str → Verdict → GateEvent

pub record ApprovalGate : Type 0 where
  pub pending : List (Str × PendingApproval)
  pub granted_scopes : List Str
  pub settled : List (Str × Verdict)
  pub emitted : List GateEvent

abbrev pub init : ApprovalGate
init = record { pending = []; granted_scopes = []; settled = []; emitted = [] }

-- `set.add(key)`
unfoldable pub add_key : Str → List Str → List Str
add_key k ks = if member k ks then ks else ks ++ k ∷ []

-- `set.delete(key)`
unfoldable pub delete_key : Str → List Str → List Str
delete_key k [] = []
delete_key k (j ∷ js) = if str_eq j k then delete_key k js else j ∷ delete_key k js

-- `options.scope ? { scope: options.scope } : {}`: an empty scope counts as none
abbrev pub present : Option Str → Option Str
present none = none
present (some []) = none
present (some (c ∷ s)) = some (c ∷ s)

-- `options.scope && this.grantedScopes.has(options.scope)`
abbrev pub is_granted : Option Str → List Str → Bool
is_granted none granted = false
is_granted (some s) granted = member s granted

-- A promise that has settled ignores later calls of its `resolve`.
unfoldable pub settle : Str → Verdict → List (Str × Verdict) → List (Str × Verdict)
settle id verdict settled = elim (get id settled) [
  | none ↦ put id verdict settled
  | some earlier ↦ settled
]

abbrev pub verdict_of : ApprovalDecision → Verdict
verdict_of deny = denied
verdict_of allow = allowed
verdict_of session = allowed

abbrev pub grants : ApprovalDecision → Option Str → List Str → List Str
grants session (some s) granted = add_key s granted
grants session none granted = granted
grants allow scope granted = granted
grants deny scope granted = granted

abbrev pub entry_for : Str → Str → Unknown → Option Str → PendingApproval
entry_for approval_id reason payload scope = record {
  approval_id = approval_id;
  tool_call_id = approval_id;
  reason = reason;
  irreversible = true;
  payload = payload;
  scope = present scope;
}

-- The new gate, and the verdict where the promise resolves at once.
unfoldable pub request :
    ApprovalGate → Str → Str → Unknown → Option Str → ApprovalGate × Option Verdict
request gate approval_id reason payload scope =
    if is_granted (present scope) gate.granted_scopes then (gate, some allowed) else (
      record gate {
        pending = put approval_id (entry_for approval_id reason payload scope) gate.pending;
        emitted =
            gate.emitted ++ approval_requested (entry_for approval_id reason payload scope) ∷ [];
      },
      none,
    )

-- The timer's callback. The timer is cleared when the entry is answered, so it fires only while the
-- entry is pending.
unfoldable pub expire : ApprovalGate → Str → ApprovalGate
unfolding settle
expire gate approval_id = elim (get approval_id gate.pending) [
  | none ↦ gate
  | some entry ↦ record gate {
    pending = remove approval_id gate.pending;
    settled = settle approval_id denied gate.settled;
  }
]

-- the entry's own `resolve`
unfoldable pub entry_resolve : PendingApproval → ApprovalDecision → ApprovalGate → ApprovalGate
unfolding settle
entry_resolve entry decision gate = record gate {
  pending = remove entry.approval_id gate.pending;
  granted_scopes = grants decision entry.scope gate.granted_scopes;
  settled = settle entry.approval_id (verdict_of decision) gate.settled;
}

abbrev pub emit : GateEvent → ApprovalGate → ApprovalGate
emit event gate = record gate { emitted = gate.emitted ++ event ∷ [] }

unfoldable pub resolve : ApprovalGate → Str → ApprovalDecision → ApprovalGate × Bool
unfolding entry_resolve
resolve gate approval_id decision = elim (get approval_id gate.pending) [
  | none ↦ (gate, false)
  | some entry ↦ (
    emit (approval_resolved approval_id (verdict_of decision)) (entry_resolve entry decision gate),
    true,
  )
]

unfoldable pub revoke_scope : ApprovalGate → Str → ApprovalGate
unfolding delete_key
revoke_scope gate scope = record gate { granted_scopes = delete_key scope gate.granted_scopes }

-- the loop of `denyAll`, over a copy of the entries
unfoldable pub deny_each : List PendingApproval → ApprovalGate → ApprovalGate
unfolding entry_resolve
deny_each [] gate = gate
deny_each (entry ∷ entries) gate = deny_each entries (entry_resolve entry deny gate)

unfoldable pub deny_all : ApprovalGate → ApprovalGate
unfolding deny_each
deny_all gate = deny_each (values gate.pending) gate

unfoldable pub granted_for_session : ApprovalGate → List Str
granted_for_session gate = gate.granted_scopes

-- `list`: the entries without their `resolve`, which the model does not keep in them.
unfoldable pub list : ApprovalGate → List PendingApproval
list gate = values gate.pending

-- The calls that a gate receives in a session, the timers among them.
pub data Call : Type 0 where
  requests : Str → Str → Unknown → Option Str → Call
  answers : Str → ApprovalDecision → Call
  expires : Str → Call
  revokes : Str → Call
  denies_all : Call

unfoldable pub step : ApprovalGate → Call → ApprovalGate
unfolding request expire resolve revoke_scope deny_all
step gate (requests id reason payload scope) = (request gate id reason payload scope).0
step gate (answers id decision) = (resolve gate id decision).0
step gate (expires id) = expire gate id
step gate (revokes scope) = revoke_scope gate scope
step gate denies_all = deny_all gate

unfoldable pub run : ApprovalGate → List Call → ApprovalGate
unfolding step
run gate [] = gate
run gate (c ∷ cs) = run (step gate c) cs
