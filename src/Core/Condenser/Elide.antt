-- ===== src/Core/Condenser/Elide.antt =====
-- packages/core/src/condenser.ts, elideToolOutputs: the lossless pass.
use open_source_harness.Common.{
  ℕ, suc, zero, ◌≡◌, ◌-◌, ◌<◌, inl, inr, Bool, true, false, ◌||◌, Option, some, List, [], ◌∷◌,
  length, Str, get_elem?, Bool-cases, arith, refl, drop, All₂, All₂-refl, All₂-length,
  if◌then◌else◌, any-All₂, leb,
}
use open_source_harness.Common.Monad.{Ensures, Ensures-some, Ensures-bind}
use open_source_harness.Protocol.Messages.{
  Unknown, string, Message, Part, ToolResultPart, tool_result, text, reasoning, tool_call, file,
  is_tool_call, is_tool_result,
}
use open_source_harness.Core.Tokens.{Runtime}
use open_source_harness.Core.Condenser.{
  has_tool_call, has_tool_result, holds_at, recent_boundary, truthy, size_of, elision_note,
  elide_result, elide_part, elide_parts, elide_message, elide_before, elide_tool_outputs,
}
use open_source_harness.Core.Condenser.Boundary.{boundary_from_congr}

module _ (runtime : Runtime) (persist : Str → Unknown → Option Str) (limit : ℕ) where
  -- `q` stands for the tool result `r`, whose output was over the limit and was persisted at
  -- `path`: the call's id, the tool's name and the error mark are those of `r`.
  pub record Elided (r : ToolResultPart) (q : Part) : Type 0 where
    pub path : Str
    pub large : limit < size_of runtime r.output
    pub stored : persist r.tool_call_id r.output ≡ some path
    pub result :
        q
        ≡ tool_result (record r {
          output = string (elision_note (size_of runtime r.output) path);
          elided_to = some path;
        })

  -- A part is kept as it is, or it is a tool result that was elided.
  pub data PartKept : Part → Part → Type 0 where
    same : (p q : Part) → q ≡ p → PartKept p q
    elided : (r : ToolResultPart) (q : Part) → Elided r q → PartKept (tool_result r) q

  pub record MessageKept (m n : Message) : Type 0 where
    pub id : n.id ≡ m.id
    pub role : n.role ≡ m.role
    pub pinned : n.pinned ≡ m.pinned
    pub parts : All₂ PartKept m.parts n.parts

  elide_result-PartKept :
      (r : ToolResultPart)
      → Ensures (λ q. PartKept (tool_result r) q.0) (elide_result runtime persist limit r)
  unfolding elide_result
  elide_result-PartKept r =
      elim (Bool-cases (truthy r.elided_to || leb (size_of runtime r.output) limit)) [
        | inl keep ↦ rw keep (Ensures-some _ _ (same _ _ refl))
        | inr large ↦ rw large (
            Ensures-bind (λ path. persist r.tool_call_id r.output ≡ some path) _ _ _
              (record { holds = λ path e. e })
              λ path stored. Ensures-some _ _ (
                elided r _
                  (record { path = path; large = ground arith; stored = stored; result = refl })))
      ]

  elide_part-PartKept :
      (p : Part) → Ensures (λ q. PartKept p q.0) (elide_part runtime persist limit p)
  unfolding elide_part
  elide_part-PartKept (tool_result r) = elide_result-PartKept r
  elide_part-PartKept (text s) = Ensures-some _ _ (same _ _ refl)
  elide_part-PartKept (reasoning r) = Ensures-some _ _ (same _ _ refl)
  elide_part-PartKept (tool_call c) = Ensures-some _ _ (same _ _ refl)
  elide_part-PartKept (file f) = Ensures-some _ _ (same _ _ refl)

  elide_parts-PartKept :
      (ps : List Part) → Ensures (λ r. All₂ PartKept ps r.0) (elide_parts runtime persist limit ps)
  unfolding elide_parts
  elide_parts-PartKept [] = Ensures-some _ _ tt
  elide_parts-PartKept (p ∷ ps) =
      Ensures-bind _ _ (elide_part runtime persist limit p) _ (elide_part-PartKept p) λ q h.
        Ensures-bind _ _ (elide_parts runtime persist limit ps) _ (elide_parts-PartKept ps)
          λ r k. Ensures-some _ _ (h, k)

  MessageKept-refl : (m : Message) → MessageKept m m
  MessageKept-refl m = record {
    id = refl;
    role = refl;
    pinned = refl;
    parts = All₂-refl PartKept (λ p. same p p refl) m.parts;
  }

  elide_message-MessageKept :
      (m : Message) → Ensures (λ r. MessageKept m r.0) (elide_message runtime persist limit m)
  unfolding elide_message
  elide_message-MessageKept m =
      Ensures-bind _ _ (elide_parts runtime persist limit m.parts) _ (elide_parts-PartKept m.parts)
        λ r h. Ensures-some _ _ (chosen r.0 r.1 h)
    where
      chosen :
          (ps : List Part) (changed : Bool)
          → All₂ PartKept m.parts ps
          → MessageKept m (if changed then record m { parts = ps } else m)
      chosen ps true h = record { id = refl; role = refl; pinned = refl; parts = h }
      chosen ps false h = MessageKept-refl m

  -- The first `boundary` messages are kept up to elided results, the others as they are.
  pub elide_before-kept :
      (boundary : ℕ) (ms : List Message)
      → Ensures
          (λ r. All₂ MessageKept ms r.0 × (drop boundary r.0 ≡ drop boundary ms))
          (elide_before runtime persist limit boundary ms)
  unfolding elide_before
  elide_before-kept zero ms = Ensures-some _ _ (All₂-refl MessageKept MessageKept-refl ms, refl)
  elide_before-kept (suc b) [] = Ensures-some _ _ (tt, refl)
  elide_before-kept (suc b) (m ∷ ms) =
      Ensures-bind _ _ (elide_message runtime persist limit m) _ (elide_message-MessageKept m)
        λ n h.
          Ensures-bind _ _ (elide_before runtime persist limit b ms) _ (elide_before-kept b ms)
            λ r k. Ensures-some _ _ ((h, k.0), k.1)

  PartKept-is_tool_call : (p q : Part) → PartKept p q → is_tool_call q ≡ is_tool_call p
  PartKept-is_tool_call p q (same _ _ e) = rw e
  PartKept-is_tool_call _ q (elided r _ e) = rw (e.result)

  PartKept-is_tool_result : (p q : Part) → PartKept p q → is_tool_result q ≡ is_tool_result p
  PartKept-is_tool_result p q (same _ _ e) = rw e
  PartKept-is_tool_result _ q (elided r _ e) = rw (e.result)

  MessageKept-has_tool_call : (m n : Message) → MessageKept m n → has_tool_call n ≡ has_tool_call m
  MessageKept-has_tool_call m n h =
      any-All₂ PartKept is_tool_call PartKept-is_tool_call m.parts n.parts h.parts

  MessageKept-has_tool_result :
      (m n : Message) → MessageKept m n → has_tool_result n ≡ has_tool_result m
  MessageKept-has_tool_result m n h =
      any-All₂ PartKept is_tool_result PartKept-is_tool_result m.parts n.parts h.parts

  holds_at-kept :
      (p : Message → Bool)
      → ((m n : Message) → MessageKept m n → p n ≡ p m)
      → (xs ys : List Message) (i : ℕ) → All₂ MessageKept xs ys
      → holds_at p (get_elem? ys i) ≡ holds_at p (get_elem? xs i)
  holds_at-kept p same_answer [] [] i h = refl
  holds_at-kept p same_answer (x ∷ xs) (y ∷ ys) zero h = same_answer x y h.0
  holds_at-kept p same_answer (x ∷ xs) (y ∷ ys) (suc i) h = holds_at-kept p same_answer xs ys i h.1
  holds_at-kept p same_answer [] (y ∷ ys) i h = absurd h
  holds_at-kept p same_answer (x ∷ xs) [] i h = absurd h

  -- Elision does not move the boundary.
  pub recent_boundary-kept :
      (xs ys : List Message) (keep_recent : ℕ)
      → All₂ MessageKept xs ys
      → recent_boundary ys keep_recent ≡ recent_boundary xs keep_recent
  unfolding recent_boundary
  recent_boundary-kept xs ys keep_recent h = rw (All₂-length MessageKept xs ys h) (
      boundary_from_congr ys xs (length xs - keep_recent)
        (λ i. holds_at-kept has_tool_result MessageKept-has_tool_result xs ys i h)
        (λ i. holds_at-kept has_tool_call MessageKept-has_tool_call xs ys i h))

  -- In the result of the pass every message keeps its id, its role and its mark, every part is kept
  -- as it is or is a tool result over the limit that was persisted, and from the recent boundary on
  -- the messages are the ones that were given.
  pub elide_tool_outputs_keeps :
      (history out : List Message) (keep_recent : ℕ) (changed : Bool)
      → elide_tool_outputs runtime persist limit history keep_recent ≡ some (out, changed)
      → All₂ MessageKept history out
        × (drop (recent_boundary history keep_recent) out
            ≡ drop (recent_boundary history keep_recent) history)
  unfolding elide_tool_outputs
  elide_tool_outputs_keeps history out keep_recent changed e =
      (elide_before-kept (recent_boundary history keep_recent) history).holds _ e
