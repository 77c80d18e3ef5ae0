-- ===== src/Core/Condenser/Passes.antt =====
-- packages/core/src/condenser.ts, condense: what each of the two passes leaves of the history.
use open_source_harness.Common.{
  ℕ, ◌≡◌, inl, inr, Bool, true, false, Option, none, some, List, [], ◌∷◌, ◌++◌, Str, Bool-cases,
  arith, refl, sym, ap, ◌∙◌, take, drop, ltb, filter, All, All-append, All-take, All-drop,
  All-of_All₂, filter-append, filter-eq_of_All, filter-eq-nil_of_All, filter_idem, take-append-drop,
  append_assoc, append-nil, if◌then◌else◌, codes,
}
use open_source_harness.Common.Monad.{Ensures, Ensures-some, Ensures-bind}
use open_source_harness.Protocol.Messages.{Message, Unknown}
use open_source_harness.Core.Tokens.{Runtime, estimate_tokens}
use open_source_harness.Core.Condenser.{
  CondenserOptions, recent_boundary, summary_message, summarise_middle, elide_before,
  elide_tool_outputs, elide_pass, summarise_pass, is_pinned, is_unpinned, ran,
}
use open_source_harness.Core.Condenser.Elide.{MessageKept, elide_before-kept, recent_boundary-kept}
use open_source_harness.Core.Condenser.Quiet.{elide_before-quiet}
use open_source_harness.Core.Condenser.Summary.{
  with_summary, Summarised, unchanged, replaced, summarise_middle-Summarised,
}

abbrev pub Unpinned : List Message → Type 0
Unpinned = All (λ m. is_unpinned m ≡ true)

ran-append : (passes : List Str) (name : Str) → ran (passes ++ name ∷ []) ≡ false → ⊥
ran-append [] name h = cc
ran-append (p ∷ ps) name h = cc

-- The two halves of a partition by the pinned mark.
pub marked_half :
    (xs ys : List Message)
    → Unpinned ys
    → filter is_pinned (filter is_pinned xs ++ ys) ≡ filter is_pinned xs
marked_half xs ys h =
    filter-append is_pinned (filter is_pinned xs) ys
    ∙ ap (λ t. t ++ filter is_pinned ys) (filter_idem is_pinned xs)
    ∙ ap (◌++◌ (filter is_pinned xs)) (filter-eq-nil_of_All is_pinned ys (pinned_false ys h))
    ∙ append-nil (filter is_pinned xs)
  where
    pinned_false : (ms : List Message) → Unpinned ms → All (λ m. is_pinned m ≡ false) ms
    pinned_false [] k = tt
    pinned_false (m ∷ ms) k = (ground arith, pinned_false ms k.1)

pub others_half :
    (xs ys : List Message) → Unpinned ys → filter is_unpinned (filter is_pinned xs ++ ys) ≡ ys
others_half xs ys h =
    filter-append is_unpinned (filter is_pinned xs) ys
    ∙ ap (λ t. t ++ filter is_unpinned ys)
        (filter-eq-nil_of_All is_unpinned (filter is_pinned xs) (unpinned_false xs))
    ∙ filter-eq_of_All is_unpinned ys h
  where
    unpinned_false : (ms : List Message) → All (λ m. is_unpinned m ≡ false) (filter is_pinned ms)
    unpinned_false [] = tt
    unpinned_false (m ∷ ms) = ground (arith, unpinned_false ms)

module _ (runtime : Runtime) (options : CondenserOptions) where
  -- Where the verbatim tail of a history begins.
  abbrev pub tail_start : List Message → ℕ
  tail_start history = recent_boundary history options.keep_recent

  -- What a pass leaves of the history that it was given.
  pub record Passed (history : List Message) (passes : List Str) (r : List Message × List Str)
      : Type 0 where
    pub unpinned : Unpinned r.0
    pub front : List Message
    pub tail : r.0 ≡ front ++ drop (tail_start history) history
    pub quiet : ran r.1 ≡ false → (r.0 ≡ history) × (ran passes ≡ false)

  pub record Elision (history : List Message) (r : List Message × List Str) : Type 0 where
    pub unpinned : Unpinned r.0
    pub start : tail_start r.0 ≡ tail_start history
    pub tail : drop (tail_start history) r.0 ≡ drop (tail_start history) history
    pub quiet : ran r.1 ≡ false → r.0 ≡ history

  MessageKept-unpinned :
      (persist : Str → Unknown → Option Str) (limit : ℕ) (m n : Message)
      → MessageKept runtime persist limit m n
      → is_unpinned m ≡ true
      → is_unpinned n ≡ true
  MessageKept-unpinned persist limit m n k h = rw (k.pinned) h

  pub elide_pass-Elision :
      (p : Option (Str → Unknown → Option Str)) (history : List Message)
      → Unpinned history
      → Ensures (Elision history) (elide_pass runtime options p history)
  unfolding elide_pass elide_tool_outputs
  elide_pass-Elision none history h =
      Ensures-some _ _ (record { unpinned = h; start = refl; tail = refl; quiet = λ e. refl })
  elide_pass-Elision (some persist) history h =
      let limit = options.elide_tool_outputs_over_chars in
      let b : ℕ = tail_start history in
      Ensures-bind (λ r. (elide_before runtime persist limit b history ≡ some r)) _
        (elide_before runtime persist limit b history) _ (record { holds = λ r e. e })
        λ r e.
          let (kept, tail) = (elide_before-kept runtime persist limit b history).holds r e in
          let quiet = (elide_before-quiet runtime persist limit b history).holds r e in
          Ensures-some _ _ (record {
            unpinned =
                All-of_All₂ (MessageKept runtime persist limit) _
                  (MessageKept-unpinned persist limit) history r.0 kept h;
            start = recent_boundary-kept runtime persist limit history r.0 options.keep_recent kept;
            tail = tail;
            quiet = λ e. quiet (ground arith);
          })

  Passed-refl :
      (history : List Message) (passes : List Str)
      → Unpinned history
      → Passed history passes (history, passes)
  Passed-refl history passes h = record {
    unpinned = h;
    front = take (tail_start history) history;
    tail = sym (take-append-drop (tail_start history) history);
    quiet = λ e. (refl, e);
  }

  with_summary-Unpinned :
      (first recent : ℕ) (summarise : List Message → Option Str) (history : List Message)
      (summary : Str)
      → Unpinned history
      → Unpinned (with_summary summarise first recent history summary)
  unfolding summary_message
  with_summary-Unpinned first recent summarise history summary h =
      All-append _ (take first history) _ (All-take _ first history h)
        (refl, All-drop _ (recent_boundary history recent) history h)

  Summarised-Passed :
      (summarise : List Message → Option Str) (history : List Message) (passes : List Str)
      (r : List Message × Bool)
      → Unpinned history
      → Summarised summarise options.keep_first options.keep_recent history r
      → Passed history passes (r.0, if r.1 then passes ++ codes "summarise-middle" ∷ [] else passes)
  Summarised-Passed summarise history passes r h (unchanged _ e) =
      rw e (Passed-refl history passes h)
  Summarised-Passed summarise history passes r h (replaced _ summary two s e) = rw e (record {
    unpinned =
        with_summary-Unpinned options.keep_first options.keep_recent summarise history summary h;
    front = take options.keep_first history ++ summary_message _ _ summary ∷ [];
    tail = sym (append_assoc (take options.keep_first history) _ _);
    quiet = λ q. absurd (ran-append passes _ q);
  })

  pub summarise_pass-Passed :
      (s : Option (List Message → Option Str)) (pinned history : List Message) (passes : List Str)
      → Unpinned history
      → Ensures (Passed history passes) (summarise_pass runtime options s pinned history passes)
  unfolding summarise_pass
  summarise_pass-Passed none pinned history passes h =
      Ensures-some _ _ (Passed-refl history passes h)
  summarise_pass-Passed (some summarise) pinned history passes h =
      elim (Bool-cases (ltb options.max_tokens (estimate_tokens runtime (pinned ++ history)))) [
        | inl over ↦ rw over (
            Ensures-bind _ _
              (summarise_middle summarise options.keep_first options.keep_recent history) _
              (summarise_middle-Summarised summarise options.keep_first options.keep_recent history)
              λ r e. Ensures-some _ _ (Summarised-Passed summarise history passes r h e))
        | inr under ↦ rw under (Ensures-some _ _ (Passed-refl history passes h))
      ]
