-- ===== src/Core/Pinning/Policy.antt =====
-- packages/core/src/pinning.ts, buildPolicyMessage and PolicyPin: the rules reach every request.
use open_source_harness.Common.{
  append_assoc, append-nil, In-append_left, In-append_right, In-map, ◌≡◌, refl, sym, ap, ◌∙◌,
  Option, List, [], ◌∷◌, ◌++◌, Str, In, here, there, In-nil, join, filter,
}
use open_source_harness.Protocol.Messages.{Message, text}
use open_source_harness.Core.Pinning.{
  OrgPolicy, newline, head_lines, rule_line, rule_lines, policy_footer, budget_lines, policy_text,
  build_policy_message, PolicyPin, messages, assemble, update, is_clean, assemble_request,
  policy_message_id,
}

-- `s` stands in `t`.
abbrev pub Contains : Str → Str → Type 0
Contains t s = (before : Str) × (after : Str) × (t ≡ before ++ s ++ after)

join-Contains :
    (separator s : Str) (lines : List Str) → In s lines → Contains (join separator lines) s
unfolding join
join-Contains separator s [] i = absurd (In-nil i)
join-Contains separator s (l ∷ []) (here same) = ([], [], sym same ∙ sym (append-nil s))
join-Contains separator s (l ∷ []) (there i) = absurd (In-nil i)
join-Contains separator s (l ∷ m ∷ ls) (here same) = (
  [],
  separator ++ join separator (m ∷ ls),
  append_assoc l separator (join separator (m ∷ ls))
      ∙ ap (λ x. x ++ (separator ++ join separator (m ∷ ls))) (sym same),
)
join-Contains separator s (l ∷ m ∷ ls) (there i) =
    let (before, after, e) = join-Contains separator s (m ∷ ls) i in
    (
      (l ++ separator) ++ before,
      after,
      ap (◌++◌ (l ++ separator)) e
          ∙ sym (append_assoc (l ++ separator) (before ++ s) after)
          ∙ ap (λ x. x ++ after) (sym (append_assoc (l ++ separator) before s)),
    )

In-rule_lines : (c : Str) (cs : List Str) → In c cs → In (rule_line c) (rule_lines cs)
unfolding rule_lines
In-rule_lines c [] i = absurd (In-nil i)
In-rule_lines c (d ∷ cs) i = there (there (In-map rule_line c (d ∷ cs) i))

module _ {Amount : Type 0} (to_fixed : Amount → Str) where
  pub policy_text-states :
      (policy : OrgPolicy) (live : Option Amount) (c : Str)
      → In c policy.constraints
      → Contains (policy_text to_fixed policy live) (rule_line c)
  unfolding policy_text
  policy_text-states policy live c i = join-Contains newline (rule_line c) _ (
      In-append_left _ _ policy_footer (
        In-append_right _ (head_lines policy ++ budget_lines to_fixed live) _
          (In-rule_lines c policy.constraints i)))

  -- Whatever history a request is built on, it begins with one message that states each constraint
  -- of the policy last set, verbatim behind a dash. What follows is the history without its pinned
  -- messages and those that have the id of that message.
  pub assemble_states_constraint :
      (pin : PolicyPin to_fixed) (policy : OrgPolicy) (history : List Message)
      (live : Option Amount) (c : Str)
      → In c policy.constraints
      → (block : Str) × (rest : List Message) × (assemble to_fixed
            (update to_fixed pin policy)
            history
            live
          ≡ record (build_policy_message to_fixed policy live) { parts = text block ∷ [] } ∷ rest)
        × Contains block (rule_line c)
        × (rest ≡ filter (is_clean (policy_message_id ∷ [])) history)
  unfolding assemble messages build_policy_message assemble_request
  assemble_states_constraint pin policy history live c i =
      (policy_text to_fixed policy live, _, refl, policy_text-states policy live c i, refl)
