-- ===== src/Mcp/Toolset/Search.antt =====
-- packages/mcp/src/toolset.ts, search: the tools that are found are the best of those that match.
use mathlib.Core.Path.{subst}
use open_source_harness.Mcp.Toolset.Words.{Words, split_words-Words}
use open_source_harness.Mcp.Toolset.Terms.{
  Contains, Counts, score_terms-Counts, Counts-score_terms, Counts-some,
}
use open_source_harness.Common.{
  codes, ◌++◌, ℕ, suc, zero, ◌≤◌, ◌<◌, ◌≡◌, refl, ap, ◌∙◌, ◌⊎◌, inl, inr, Bool, true, List, [], ◌∷◌,
  Str, leb, ltb, filter, map, take, length, length-map, length-take, All-In, All, All-take,
  All-filter, All-weaken, In, here, there, In-nil, In-cons_inv, In-filter, In-map, arith,
  Bool-cases,
}
use open_source_harness.Common.Dict.{values}
use open_source_harness.Mcp.Registry.{
  or_empty, Hashing, ToolApprovals, status, approved, unapproved, changed, ToolStatus,
}
use open_source_harness.Mcp.Toolset.{
  DiscoveredTool, McpToolset, McpToolsetOptions, is_approved, split_words, Scored, place_scored,
  rank, limit_of, callable, scored, ranked, search,
}

All-both {ℓ} :
    {A : Type ℓ} (P Q R : A → Type 0)
    → ((x : A) → P x → Q x → R x)
    → (xs : List A) → All P xs
    → All Q xs
    → All R xs
All-both P Q R f [] ps qs = tt
All-both P Q R f (x ∷ xs) (p, ps) (q, qs) = (f x p q, All-both P Q R f xs ps qs)

module _ {ℓ κ} {A : Type ℓ} (P : A → Type κ) where
  pub All-kept : (q : A → Bool) (xs : List A) → All P xs → All P (filter q xs)
  All-kept q [] ps = tt
  All-kept q (x ∷ xs) (p, ps) = elim (Bool-cases (q x)) [
    | inl keep ↦ rw (keep) (p, All-kept q xs ps)
    | inr drop_ ↦ rw (drop_) (All-kept q xs ps)
  ]

  pub All-map {μ} :
      {B : Type μ} (f : B → A) (xs : List B) → All (λ b. P (f b)) xs → All P (map f xs)
  All-map f [] ps = tt
  All-map f (x ∷ xs) (p, ps) = (p, All-map f xs ps)

-- No score is above the one before it.
abbrev pub Falling : List Scored → Type 0
Falling [] = Unit {0}
Falling (s ∷ ss) = All (λ (t : Scored). t.score ≤ s.score) ss × Falling ss

module _ (P : Scored → Type 0) where
  place_scored-All : (s : Scored) (ss : List Scored) → P s → All P ss → All P (place_scored s ss)
  unfolding place_scored
  place_scored-All s [] p ps = (p, tt)
  place_scored-All s (t ∷ ts) p (q, qs) = elim (Bool-cases (leb t.score s.score)) [
    | inl first ↦ rw (place_scored, first) (p, (q, qs))
    | inr later ↦ rw (place_scored, later) (q, place_scored-All s ts p qs)
  ]

  pub rank-All : (ss : List Scored) → All P ss → All P (rank ss)
  unfolding rank
  rank-All [] ps = tt
  rank-All (s ∷ ss) (p, ps) = place_scored-All s (rank ss) p (rank-All ss ps)

place_scored-Falling : (s : Scored) (ss : List Scored) → Falling ss → Falling (place_scored s ss)
unfolding place_scored
place_scored-Falling s [] f = (tt, tt)
place_scored-Falling s (t ∷ ts) (below, f) = elim (Bool-cases (leb t.score s.score)) [
  | inl first ↦
      let le : t.score ≤ s.score = ground arith in
      rw (place_scored, first)
        (
          (
            le,
            All-weaken (λ (u : Scored). u.score ≤ t.score) (λ (u : Scored). u.score ≤ s.score)
                (λ u h. omega (arith, h, le)) ts below,
          ),
          (below, f),
        )
  | inr later ↦
      let le : s.score ≤ t.score = ground arith in
      rw (place_scored, later)
        (
          place_scored-All (λ (u : Scored). u.score ≤ t.score) s ts le below,
          place_scored-Falling s ts f,
        )
]

rank-Falling : (ss : List Scored) → Falling (rank ss)
unfolding rank
rank-Falling [] = tt
rank-Falling (s ∷ ss) = place_scored-Falling s (rank ss) (rank-Falling ss)

In-place_scored : (u s : Scored) (ss : List Scored) → In u (s ∷ ss) → In u (place_scored s ss)
unfolding place_scored
In-place_scored u s [] i = i
In-place_scored u s (t ∷ ts) i = elim (Bool-cases (leb t.score s.score)) [
  | inl first ↦ rw (place_scored, first) i
  | inr later ↦
      rw (place_scored, later)
        (elim (In-cons_inv i) [
          | inl e ↦ there (In-place_scored u s ts (here e))
          | inr j ↦ elim (In-cons_inv j) [
            | inl e ↦ here e
            | inr k ↦ there (In-place_scored u s ts (there k))
          ]
        ])
]

In-rank : (u : Scored) (ss : List Scored) → In u ss → In u (rank ss)
unfolding rank
In-rank u [] i = i
In-rank u (s ∷ ss) i =
    In-place_scored u s (rank ss)
      (elim (In-cons_inv i) [ inl e ↦ here e | inr j ↦ there (In-rank u ss j) ])

take-Falling : (n : ℕ) (ss : List Scored) → Falling ss → Falling (take n ss)
take-Falling zero ss f = tt
take-Falling (suc n) [] f = tt
take-Falling (suc n) (s ∷ ss) (below, f) =
    (All-take (λ (t : Scored). t.score ≤ s.score) n ss below, take-Falling n ss f)

-- Of a falling list, what does not fit is no better than anything that fits.
best_fit :
    (n : ℕ) (u : Scored) (ss : List Scored)
    → Falling ss
    → In u ss
    → In u (take n ss)
      ⊎ ((length (take n ss) ≡ n) × All (λ (t : Scored). u.score ≤ t.score) (take n ss))
best_fit zero u ss f i = inr (refl, tt)
best_fit (suc n) u [] f i = absurd (In-nil i)
best_fit (suc n) u (s ∷ ss) (below, f) i = elim (In-cons_inv i) [
  | inl e ↦ inl (here e)
  | inr j ↦ elim (best_fit n u ss f j) [
    | inl k ↦ inl (there k)
    | inr (full, better) ↦
        inr (ap suc full, (All-In (λ (t : Scored). t.score ≤ s.score) ss below j, better))
  ]
]

module _ (hashing : Hashing) (lower : Str → Str) (approvals : ToolApprovals) where
  -- The text that a tool is found by.
  abbrev pub text_of : DiscoveredTool → Str
  text_of t = lower (t.descriptor.name ++ codes " " ++ or_empty t.descriptor.description)

  -- What a search for `query` returns, with the scores that it has given.
  pub record IsBestMatch (options : McpToolsetOptions) (toolset : McpToolset) (query : Str)
      : Type 0 where
    -- the words that are looked for
    pub words : Words (lower query) (split_words [] (lower query))
    pub callable_only :
        All
          (λ (s : Scored).
            status hashing approvals s.candidate.server_id s.candidate.descriptor ≡ approved)
          (ranked hashing lower approvals options toolset query)
    pub matching :
        All
          (λ (s : Scored).
            (term : Str) × In term (split_words [] (lower query))
            × Contains (text_of s.candidate) term)
          (ranked hashing lower approvals options toolset query)
    pub counted :
        All
          (λ (s : Scored). Counts (text_of s.candidate) (split_words [] (lower query)) s.score)
          (ranked hashing lower approvals options toolset query)
    pub bounded :
        length (search hashing lower approvals options toolset query)
        ≤ limit_of options.search_limit
    pub falling : Falling (ranked hashing lower approvals options toolset query)
    -- a tool that matches and is left out
    pub best :
        (t : DiscoveredTool) (n : ℕ)
        → In t (values toolset.discovered)
        → status hashing approvals t.server_id t.descriptor ≡ approved
        → Counts (text_of t) (split_words [] (lower query)) n
        → 0 < n
        → In t (search hashing lower approvals options toolset query)
          ⊎ ((length (search hashing lower approvals options toolset query)
                ≡ limit_of options.search_limit)
              × All
                  (λ (s : Scored). n ≤ s.score)
                  (ranked hashing lower approvals options toolset query))

  pub approved_status : (s : ToolStatus) → is_approved s ≡ true → s ≡ approved
  approved_status approved h = refl
  approved_status unapproved h = cc
  approved_status changed h = cc

  counts_each :
      (terms : List Str) (ts : List DiscoveredTool)
      → All (λ t. Counts (text_of t) terms (scored hashing lower approvals terms t).score) ts
  unfolding scored
  counts_each terms [] = tt
  counts_each terms (t ∷ ts) = (score_terms-Counts (text_of t) terms, counts_each terms ts)

  -- A search returns approved tools only, each of which contains a word of the query in its name and
  -- description, in falling order of their scores, a score being the number of the query's words
  -- that stand in that text, and no more tools than the limit. An approved tool that contains such a
  -- word is returned unless as many others are as the limit allows, which contain no fewer words. The
  -- words are the longest stretches of the lower-case query without white space.
  pub search-IsBestMatch :
      (options : McpToolsetOptions) (toolset : McpToolset) (query : Str)
      → IsBestMatch options toolset query
  unfolding search ranked callable scored
  search-IsBestMatch options toolset query =
      let n = limit_of options.search_limit in
      let terms = split_words [] (lower query) in
      let matches =
        filter (λ (s : Scored). ltb 0 s.score)
          (map (scored hashing lower approvals terms) (callable hashing lower approvals toolset)) in
      let is_callable = λ (s : Scored).
        status hashing approvals s.candidate.server_id s.candidate.descriptor ≡ approved in
      let fits = λ (P : Scored → Type 0) (ps : All P matches).
        All-take P n (rank matches) (rank-All P matches ps) in
      let is_count = λ (s : Scored). Counts (text_of s.candidate) terms s.score in
      let positive = λ (s : Scored). ltb 0 s.score ≡ true in
      let has_word =
        λ (s : Scored). (term : Str) × In term terms × Contains (text_of s.candidate) term in
      let counts : All is_count matches =
        All-kept is_count (λ (s : Scored). ltb 0 s.score) _
          (All-map is_count (scored hashing lower approvals terms)
            (callable hashing lower approvals toolset)
            (counts_each terms (callable hashing lower approvals toolset))) in
      record {
        words = split_words-Words (lower query);
        callable_only = fits is_callable (
            All-kept is_callable (λ (s : Scored). ltb 0 s.score) _
              (All-map is_callable (scored hashing lower approvals terms)
                (callable hashing lower approvals toolset)
                (All-weaken
                  (λ (t : DiscoveredTool).
                    is_approved (status hashing approvals t.server_id t.descriptor) ≡ true)
                  (λ (t : DiscoveredTool).
                    status hashing approvals t.server_id t.descriptor ≡ approved)
                  (λ t. approved_status _) _
                  (All-filter
                    (λ (t : DiscoveredTool).
                      is_approved (status hashing approvals t.server_id t.descriptor))
                    (values toolset.discovered)))));
        matching = fits has_word (
            All-both positive is_count has_word
              (λ s p c. Counts-some (text_of s.candidate) terms s.score c (ground arith)) matches
              (All-filter (λ (s : Scored). ltb 0 s.score)
                (map (scored hashing lower approvals terms)
                  (callable hashing lower approvals toolset)))
              counts);
        counted = fits is_count counts;
        bounded =
            let size = length-map (λ (s : Scored). s.candidate) (take n (rank matches)) in
            let fit = length-take n (rank matches) in omega (arith, size, fit);
        falling = take-Falling n (rank matches) (rank-Falling matches);
        best = λ t k there_ ok_ count hit.
            let score_is = Counts-score_terms (text_of t) terms k count in
            elim (best_fit n (scored hashing lower approvals terms t) (rank matches)
              (rank-Falling matches)
              (In-rank _ matches (
                In-filter (λ (s : Scored). ltb 0 s.score) _ _
                  (In-map (scored hashing lower approvals terms) t _ (
                    In-filter
                      (λ (t : DiscoveredTool).
                        is_approved (status hashing approvals t.server_id t.descriptor))
                      t (values toolset.discovered) there_ (ap is_approved ok_)))
                  (ground (arith, score_is, hit))))) [
                    | inl i ↦ inl (In-map (λ (s : Scored). s.candidate) _ _ i)
                    | inr (full, better) ↦ inr (
                      length-map (λ (s : Scored). s.candidate) _ ∙ full,
                      subst (λ k. All (λ (s : Scored). k ≤ s.score) (take n (rank matches)))
                          score_is better,
                    )
                  ];
      }
