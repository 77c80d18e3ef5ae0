-- ===== src/Mcp/Registry/Drift.antt =====
-- packages/mcp/src/registry.ts: an approval holds for what was approved, and for nothing else.
use open_source_harness.Common.{
  ℕ, ◌≡◌, refl, sym, ap, ◌∙◌, ◌⊎◌, inl, inr, true, false, List, [], ◌∷◌, ◌++◌, Str, str_eq,
  str_eq_iff, All, arith, Bool-cases, if◌then◌else◌,
}
use open_source_harness.Common.Dict.{get, get-put, get-remove, get-put_self}
use open_source_harness.Mcp.Registry.{
  ToolDescriptor, approved, changed, Hashing, key, ToolApprovals, hash_tool, status_of, status,
  approve, revoke, PinCall, approves, revokes, call_key, pin_call, pin_calls,
}

-- None of the calls is about the key.
abbrev pub Untouched : Str → List PinCall → Type 0
Untouched k = All (λ c. str_eq (call_key c) k ≡ false)

module _ (hashing : Hashing) where
  get_other :
      (pinned : ToolApprovals) (c : PinCall) (k : Str)
      → str_eq (call_key c) k ≡ false
      → get k (pin_call hashing pinned c) ≡ get k pinned
  unfolding pin_call approve revoke
  get_other pinned (approves s t now) k h = rw (get-put (key s t.name) k _ pinned, h) refl
  get_other pinned (revokes s name) k h = rw (get-remove (key s name) k pinned, h) refl

  get-Untouched :
      (pinned : ToolApprovals) (cs : List PinCall) (k : Str)
      → Untouched k cs
      → get k (pin_calls hashing pinned cs) ≡ get k pinned
  unfolding pin_calls
  get-Untouched pinned [] k u = refl
  get-Untouched pinned (c ∷ cs) k u =
      get-Untouched (pin_call hashing pinned c) cs k u.1 ∙ get_other pinned c k u.0

  -- Once a tool is approved, and for as long as no call is about its server and name, that server's
  -- tool of that name is approved while its surface has the approved hash, and changed as soon as
  -- it has another.
  pub approve-quarantines_drift :
      (pinned : ToolApprovals) (server_id : Str) (agreed t : ToolDescriptor) (now : ℕ)
      (cs : List PinCall)
      → t.name ≡ agreed.name
      → Untouched (key server_id agreed.name) cs
      → status hashing
          (pin_calls hashing (approve hashing pinned server_id agreed now) cs)
          server_id
          t
        ≡ (if str_eq (hash_tool hashing agreed) (hash_tool hashing t) then approved else changed)
  unfolding status approve
  approve-quarantines_drift pinned server_id agreed t now cs same u =
      ap
        (λ name.
          status_of hashing
            (get (key server_id name)
              (pin_calls hashing (approve hashing pinned server_id agreed now) cs))
            t)
        same
      ∙ ap (λ p. status_of hashing p t)
          (get-Untouched (approve hashing pinned server_id agreed now) cs
              (key server_id agreed.name) u
            ∙ get-put_self (key server_id agreed.name) _ pinned)

  -- One of the calls approved a tool under the key of `t` with the hash of `t`, and no later one is
  -- about that key.
  pub record LastApproved (cs : List PinCall) (server_id : Str) (t : ToolDescriptor) : Type 0 where
    pub before : List PinCall
    pub after : List PinCall
    pub server : Str
    pub agreed : ToolDescriptor
    pub at : ℕ
    pub split : cs ≡ before ++ approves server agreed at ∷ after
    pub same_key : key server agreed.name ≡ key server_id t.name
    pub same_hash : hash_tool hashing agreed ≡ hash_tool hashing t
    pub untouched : Untouched (key server_id t.name) after

  later :
      (c : PinCall) (cs : List PinCall) (server_id : Str) (t : ToolDescriptor)
      → LastApproved cs server_id t
      → LastApproved (c ∷ cs) server_id t
  later c cs server_id t a = record {
    before = c ∷ a.before;
    after = a.after;
    server = a.server;
    agreed = a.agreed;
    at = a.at;
    split = ap (◌∷◌ c) a.split;
    same_key = a.same_key;
    same_hash = a.same_hash;
    untouched = a.untouched;
  }

  now_approved :
      (pinned : ToolApprovals) (c : PinCall) (cs : List PinCall) (server_id : Str)
      (t : ToolDescriptor)
      → str_eq (call_key c) (key server_id t.name) ≡ true
      → Untouched (key server_id t.name) cs
      → status hashing (pin_call hashing pinned c) server_id t ≡ approved
      → LastApproved (c ∷ cs) server_id t
  unfolding status pin_call approve revoke
  now_approved pinned (approves s a now) cs server_id t same u h =
      let pinned_now = rw (get-put (key s a.name) (key server_id t.name) _ pinned, same) at h in
      record {
        before = [];
        after = cs;
        server = s;
        agreed = a;
        at = now;
        split = refl;
        same_key = (str_eq_iff (key s a.name) (key server_id t.name)).0 same;
        same_hash =
            agreed_hash (Bool-cases (str_eq (hash_tool hashing a) (hash_tool hashing t)))
              pinned_now;
        untouched = u;
      }
    where
      agreed_hash :
          (str_eq (hash_tool hashing a) (hash_tool hashing t) ≡ true)
            ⊎ (str_eq (hash_tool hashing a) (hash_tool hashing t) ≡ false)
          → (if str_eq (hash_tool hashing a) (hash_tool hashing t) then approved else changed)
            ≡ approved
          → hash_tool hashing a ≡ hash_tool hashing t
      agreed_hash (inl e) k = (str_eq_iff _ _).0 e
      agreed_hash (inr e) k = absurd (ground arith)
  now_approved pinned (revokes s name) cs server_id t same u h =
      let gone = rw (get-remove (key s name) (key server_id t.name) pinned, same) at h in
      absurd (ground arith)

  since_start :
      (pinned : ToolApprovals) (cs : List PinCall) (server_id : Str) (t : ToolDescriptor)
      → status hashing (pin_calls hashing pinned cs) server_id t ≡ approved
      → (Untouched (key server_id t.name) cs × (status hashing pinned server_id t ≡ approved))
        ⊎ LastApproved cs server_id t
  unfolding pin_calls status
  since_start pinned [] server_id t h = inl (tt, h)
  since_start pinned (c ∷ cs) server_id t h =
      elim (since_start (pin_call hashing pinned c) cs server_id t h) [
        | inr found ↦ inr (later c cs server_id t found)
        | inl (u, held) ↦ elim (Bool-cases (str_eq (call_key c) (key server_id t.name))) [
          | inl same ↦ inr (now_approved pinned c cs server_id t same u held)
          | inr other ↦ inl (
            (other, u),
            ap (λ p. status_of hashing p t) (sym (get_other pinned c (key server_id t.name) other))
                ∙ held,
          )
        ]
      ]

  -- A tool is never approved on its own: starting from no approvals, the last call about its key is
  -- an approval of a tool whose surface has the same hash.
  pub approved_needs_approval :
      (cs : List PinCall) (server_id : Str) (t : ToolDescriptor)
      → status hashing (pin_calls hashing [] cs) server_id t ≡ approved
      → LastApproved cs server_id t
  unfolding status get
  approved_needs_approval cs server_id t h = elim (since_start [] cs server_id t h) [
    | inl (u, held) ↦ absurd (ground arith)
    | inr found ↦ found
  ]
