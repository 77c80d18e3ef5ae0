-- ===== src/Gateway/Artifacts/Replay.antt =====
-- packages/gateway-model/src/artifacts.ts: what a provider is sent, and what it is not.
use open_source_harness.Common.{
  ℕ, ◌+◌, ◌≡◌, ◌≢◌, refl, sym, ap, inl, inr, Bool-cases, str_eq, str_eq_sound, filter_idem, Bool,
  true, false, not, List, [], ◌∷◌, Str, str_eq_iff, length, filter, map, All₂, length-filter-le,
  arith,
}
use mathlib.Core.Path.{subst, fun_ext, ap₂}
use open_source_harness.Protocol.Messages.{
  Message, Part, ReasoningPart, text, reasoning, tool_call, tool_result, file,
}
use open_source_harness.Gateway.Artifacts.{
  prepared, normalise, same_provider, keeps, strip_message, count_foreign, strip_foreign_reasoning,
  is_own_signature, count_own_signatures, assert_replayable, is_switch_safe, prepare_for_provider,
}

-- A part that is not reasoning.
abbrev pub NotReasoning : Part → Type 0
NotReasoning (reasoning r) = ⊥
NotReasoning (text s) = Unit
NotReasoning (tool_call c) = Unit
NotReasoning (tool_result r) = Unit
NotReasoning (file f) = Unit

abbrev pub parts_total : List Message → ℕ
parts_total [] = 0
parts_total (m ∷ ms) = length m.parts + parts_total ms

module _ (lower : Str → Str) (target : Str) where
  -- The second parts are the first, in their order, without the reasoning of other providers: two
  -- providers are the same when their normalised names are.
  pub data Stripped : List Part → List Part → Type 0 where
    no_parts : Stripped [] []
    foreign :
        {r : ReasoningPart} {ps qs : List Part}
        → normalise lower r.provider ≢ normalise lower target
        → Stripped ps qs
        → Stripped (reasoning r ∷ ps) qs
    own :
        {r : ReasoningPart} {ps qs : List Part}
        → normalise lower r.provider ≡ normalise lower target
        → Stripped ps qs
        → Stripped (reasoning r ∷ ps) (reasoning r ∷ qs)
    other :
        {p : Part} {ps qs : List Part}
        → NotReasoning p
        → Stripped ps qs
        → Stripped (p ∷ ps) (p ∷ qs)

  keeps-Stripped : (ps : List Part) → Stripped ps (filter (keeps lower target) ps)
  unfolding keeps same_provider
  keeps-Stripped [] = no_parts
  keeps-Stripped (reasoning r ∷ ps) =
      elim (Bool-cases (str_eq (normalise lower r.provider) (normalise lower target))) [
        | inl same ↦
            rw (keeps, same_provider, same) (own (str_eq_sound _ _ same) (keeps-Stripped ps))
        | inr differ ↦
            rw (keeps, same_provider, differ)
              (foreign
                (λ e. absurd (
                  ground (
                    arith,
                    differ,
                    e,
                    str_eq_iff (normalise lower r.provider) (normalise lower target),
                  )))
                (keeps-Stripped ps))
      ]
  keeps-Stripped (text s ∷ ps) = other tt (keeps-Stripped ps)
  keeps-Stripped (tool_call c ∷ ps) = other tt (keeps-Stripped ps)
  keeps-Stripped (tool_result r ∷ ps) = other tt (keeps-Stripped ps)
  keeps-Stripped (file f ∷ ps) = other tt (keeps-Stripped ps)

  -- A filter that leaves as many parts as there were leaves them all.
  filter-eq_of_length :
      (p : Part → Bool) (parts : List Part)
      → length (filter p parts) ≡ length parts
      → filter p parts ≡ parts
  filter-eq_of_length p [] e = refl
  filter-eq_of_length p (x ∷ xs) e = ground (arith, filter-eq_of_length p xs, length-filter-le p xs)

  -- The shortcut that keeps a message's identity changes nothing else.
  pub strip_message-parts :
      (m : Message) → (strip_message lower target m).parts ≡ filter (keeps lower target) m.parts
  unfolding strip_message
  strip_message-parts m = ground (arith, filter-eq_of_length (keeps lower target) m.parts)

  strip_message-rest :
      (m : Message)
      → ((strip_message lower target m).id ≡ m.id)
        × ((strip_message lower target m).role ≡ m.role)
        × ((strip_message lower target m).pinned ≡ m.pinned)
  unfolding strip_message
  strip_message-rest m = ground arith

  own_signatures-filter :
      (parts : List Part)
      → filter (is_own_signature lower target) (filter (keeps lower target) parts)
        ≡ filter (is_own_signature lower target) parts
  unfolding keeps
  own_signatures-filter [] = refl
  own_signatures-filter (reasoning r ∷ ps) = ground (arith, own_signatures-filter ps)
  own_signatures-filter (text s ∷ ps) = own_signatures-filter ps
  own_signatures-filter (tool_call c ∷ ps) = own_signatures-filter ps
  own_signatures-filter (tool_result r ∷ ps) = own_signatures-filter ps
  own_signatures-filter (file f ∷ ps) = own_signatures-filter ps

  count_own_signatures-strip :
      (ms : List Message)
      → count_own_signatures lower (map (strip_message lower target) ms) target
        ≡ count_own_signatures lower ms target
  unfolding count_own_signatures
  count_own_signatures-strip [] = refl
  count_own_signatures-strip (m ∷ ms) =
      rw (strip_message-parts m, own_signatures-filter m.parts, count_own_signatures-strip ms)

  -- Preparing a history never fails: no artifact of the target is removed, so the check that would
  -- refuse the request finds none missing. What is sent has, message by message, the same parts in
  -- the same order but for the reasoning of other providers, none of which is left, under the same
  -- id, role and mark.
  pub prepare_for_provider_keeps :
      (ms : List Message)
      → (prepare_for_provider lower ms target ≡ prepared (strip_foreign_reasoning lower ms target))
        × All₂
            (λ m n.
              Stripped m.parts n.parts × (n.id ≡ m.id) × (n.role ≡ m.role) × (n.pinned ≡ m.pinned))
            ms
            (strip_foreign_reasoning lower ms target).messages
  unfolding prepare_for_provider strip_foreign_reasoning assert_replayable
  prepare_for_provider_keeps ms = (ground (arith, count_own_signatures-strip ms), each ms)
    where
      each :
          (ms : List Message)
          → All₂
              (λ m n.
                Stripped m.parts n.parts
                × (n.id ≡ m.id)
                × (n.role ≡ m.role)
                × (n.pinned ≡ m.pinned))
              ms
              (map (strip_message lower target) ms)
      each [] = tt
      each (m ∷ ms) =
          let (i, r, p) = strip_message-rest m in
          (
            (
              subst (Stripped m.parts) (sym (strip_message-parts m)) (keeps-Stripped m.parts),
              i,
              r,
              p,
            ),
            each ms,
          )

  length-filter-split :
      (p : Part → Bool) (parts : List Part)
      → length (filter p parts) + length (filter (λ part. not (p part)) parts) ≡ length parts
  length-filter-split p [] = omega arith
  length-filter-split p (x ∷ xs) = ground (arith, length-filter-split p xs)

  -- The reported number of removed artifacts is the number of parts that are gone.
  pub strip_counts :
      (ms : List Message)
      → parts_total (strip_foreign_reasoning lower ms target).messages
          + (strip_foreign_reasoning lower ms target).stripped_foreign
        ≡ parts_total ms
  unfolding strip_foreign_reasoning count_foreign
  strip_counts [] = omega arith
  strip_counts (m ∷ ms) = omega (
    arith,
    strip_counts ms,
    ap length (strip_message-parts m),
    length-filter-split (keeps lower target) m.parts,
  )

  strip_message_twice :
      (m : Message)
      → strip_message lower target (strip_message lower target m) ≡ strip_message lower target m
  strip_message_twice m =
      again (strip_message lower target m)
        (rw (strip_message-parts m) (filter_idem (keeps lower target) m.parts))
    where
      again :
          (n : Message)
          → filter (keeps lower target) n.parts ≡ n.parts
          → strip_message lower target n ≡ n
      again n e = unfold strip_message in ground (arith, ap length e)

  map_twice :
      (ms : List Message)
      → map (strip_message lower target) (map (strip_message lower target) ms)
        ≡ map (strip_message lower target) ms
  map_twice [] = refl
  map_twice (m ∷ ms) = rw (strip_message_twice m, map_twice ms)

  -- Stripping for the same target again removes nothing and changes nothing.
  pub strip_idempotent :
      (ms : List Message)
      → let once = strip_foreign_reasoning lower ms target in
        let twice = strip_foreign_reasoning lower once.messages target in
        (twice.messages ≡ once.messages) × (twice.stripped_foreign ≡ 0)
  strip_idempotent ms =
      let again : (strip_foreign_reasoning lower (strip_foreign_reasoning lower ms target).messages
            target).messages
          ≡ (strip_foreign_reasoning lower ms target).messages =
        unfold strip_foreign_reasoning in map_twice ms in
      (
        again,
        omega (
          arith,
          strip_counts (strip_foreign_reasoning lower ms target).messages,
          ap parts_total again,
        ),
      )

module _ (lower : Str → Str) where
  keeps_congr :
      (a b : Str)
      → normalise lower a ≡ normalise lower b
      → (p : Part) → keeps lower a p ≡ keeps lower b p
  unfolding keeps same_provider
  keeps_congr a b e (reasoning r) = rw e
  keeps_congr a b e (text s) = refl
  keeps_congr a b e (tool_call c) = refl
  keeps_congr a b e (tool_result r) = refl
  keeps_congr a b e (file f) = refl

  strip_message_congr :
      (a b : Str)
      → keeps lower a ≡ keeps lower b
      → (m : Message) → strip_message lower a m ≡ strip_message lower b m
  unfolding strip_message
  strip_message_congr a b e m = rw e

  count_foreign_congr :
      (a b : Str)
      → keeps lower a ≡ keeps lower b
      → (ms : List Message) → count_foreign lower a ms ≡ count_foreign lower b ms
  unfolding count_foreign
  count_foreign_congr a b e [] = refl
  count_foreign_congr a b e (m ∷ ms) =
      ap₂ ◌+◌ (ap (λ (k : Part → Bool). length (filter (λ part. not (k part)) m.parts)) e)
        (count_foreign_congr a b e ms)

  same_of_safe :
      (a b : Str) → is_switch_safe lower a b false ≡ true → normalise lower a ≡ normalise lower b
  unfolding is_switch_safe same_provider
  same_of_safe a b h = ground (arith, str_eq_iff (normalise lower a) (normalise lower b))

  -- A switch that is safe outside a compaction boundary loses nothing: whatever the history, the
  -- new model is sent exactly what the old one would have been sent, and as many parts are removed.
  pub safe_switch_keeps_history :
      (a b : Str) (ms : List Message)
      → is_switch_safe lower a b false ≡ true
      → strip_foreign_reasoning lower ms a ≡ strip_foreign_reasoning lower ms b
  unfolding strip_foreign_reasoning
  safe_switch_keeps_history a b ms h =
      let tests : keeps lower a ≡ keeps lower b = fun_ext (keeps_congr a b (same_of_safe a b h)) in
      let messages : map (strip_message lower a) ms ≡ map (strip_message lower b) ms =
        ap (λ f. map f ms) (fun_ext (strip_message_congr a b tests)) in
      rw (messages, count_foreign_congr a b tests ms)
