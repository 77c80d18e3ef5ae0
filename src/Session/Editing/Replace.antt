-- ===== src/Session/Editing/Replace.antt =====
-- packages/session/src/tools-edit.ts: what an edit of a file changes.
use open_source_harness.Common.{
  ◌≤◌, ℕ, zero, suc, ◌-◌, ◌==◌, ◌≡◌, ◌⊎◌, refl, sym, ap, ◌∙◌, Bool, true, false, List, [], ◌∷◌,
  ◌++◌, Str, str_eq, starts_with, join, length, drop, ltb, includes, inl, inr, Bool-cases, arith,
}
use open_source_harness.Session.Editing.{
  push_code, pieces, split, count_occurrences, expand, replace_from, replace_first, replace_every,
  edited, edit_text,
}

expand_plain :
    (before matched after s : Str)
    → includes b'$' s ≡ false
    → expand before matched after false s ≡ s
unfolding expand includes
expand_plain before matched after [] h = refl
expand_plain before matched after (c ∷ s) h = elim (Bool-cases (c == b'$')) [
  | inl dollar ↦ absurd (ground arith)
  | inr other ↦ rw other (ap (◌∷◌ c) (expand_plain before matched after s (rw other at h)))
]

-- one piece of the text at least
abbrev Pieces : List Str → Type 0
Pieces ps = (p : Str) × (rest : List Str) × (ps ≡ p ∷ rest)

pieces_at_match :
    (needle : Str) (c : ℕ) (s : Str)
    → starts_with (c ∷ s) needle ≡ true
    → pieces needle 0 (c ∷ s) ≡ [] ∷ pieces needle (length needle - 1) s
unfolding pieces
pieces_at_match needle c s h = rw (pieces, h) refl

pieces_between :
    (needle : Str) (c : ℕ) (s : Str)
    → starts_with (c ∷ s) needle ≡ false
    → pieces needle 0 (c ∷ s) ≡ push_code c (pieces needle 0 s)
unfolding pieces
pieces_between needle c s h = rw (pieces, h) refl

pieces_cons : (needle : Str) (skip : ℕ) (s : Str) → Pieces (pieces needle skip s)
unfolding pieces
pieces_cons needle skip [] = ([], [], refl)
pieces_cons needle (suc skip) (c ∷ s) = pieces_cons needle skip s
pieces_cons needle zero (c ∷ s) = elim (Bool-cases (starts_with (c ∷ s) needle)) [
  | inl match_ ↦ ([], _, pieces_at_match needle c s match_)
  | inr other ↦
      let (p, rest, e) = pieces_cons needle 0 s in
      (c ∷ p, rest, pieces_between needle c s other ∙ ap (push_code c) e)
]

join-push_code :
    (separator : Str) (c : ℕ) (ps : List Str)
    → Pieces ps
    → join separator (push_code c ps) ≡ c ∷ join separator ps
unfolding join
join-push_code separator c ps (p, [], e) = rw e refl
join-push_code separator c ps (p, q ∷ rest, e) = rw e refl

length-push_code : (c : ℕ) (ps : List Str) → Pieces ps → length (push_code c ps) ≡ length ps
length-push_code c ps (p, rest, e) = rw e refl

-- A single piece is the whole text behind the match that is still being read.
only_piece :
    (needle : Str) (skip : ℕ) (s : Str)
    → length (pieces needle skip s) ≡ 1
    → (separator : Str) → join separator (pieces needle skip s) ≡ drop skip s
unfolding pieces join
only_piece needle zero [] h separator = refl
only_piece needle (suc skip) [] h separator = refl
only_piece needle (suc skip) (c ∷ s) h separator = only_piece needle skip s h separator
only_piece needle zero (c ∷ s) h separator = elim (Bool-cases (starts_with (c ∷ s) needle)) [
  | inl match_ ↦
      let (p, rest, e) = pieces_cons needle (length needle - 1) s in
      absurd (omega (arith, h, ap length (pieces_at_match needle c s match_), ap length e))
  | inr other ↦
      let some_ = pieces_cons needle 0 s in
      ap (join separator) (pieces_between needle c s other)
      ∙ join-push_code separator c (pieces needle 0 s) some_
      ∙ ap (◌∷◌ c) (
          only_piece needle 0 s
            (sym (length-push_code c (pieces needle 0 s) some_)
              ∙ sym (ap length (pieces_between needle c s other))
              ∙ h)
            separator)
]

replace_at_match :
    (needle replacement before : Str) (c : ℕ) (s : Str)
    → includes b'$' replacement ≡ false
    → starts_with (c ∷ s) needle ≡ true
    → replace_from needle replacement before (c ∷ s) ≡ replacement ++ drop (length needle) (c ∷ s)
unfolding replace_from
replace_at_match needle replacement before c s plain h =
    rw (replace_from, h)
      (ap (λ x. x ++ drop (length needle) (c ∷ s)) (expand_plain before needle _ replacement plain))

replace_between :
    (needle replacement before : Str) (c : ℕ) (s : Str)
    → starts_with (c ∷ s) needle ≡ false
    → replace_from needle replacement before (c ∷ s)
      ≡ c ∷ replace_from needle replacement (before ++ c ∷ []) s
unfolding replace_from
replace_between needle replacement before c s h = rw (replace_from, h) refl

join-nil :
    (separator : Str) (ps : List Str)
    → Pieces ps
    → join separator ([] ∷ ps) ≡ separator ++ join separator ps
unfolding join
join-nil separator ps (p, rest, e) = rw e refl

replace_from_lem :
    (n : ℕ) (needle replacement before s : Str)
    → includes b'$' replacement ≡ false
    → length (pieces (n ∷ needle) 0 s) ≡ 2
    → replace_from (n ∷ needle) replacement before s ≡ join replacement (pieces (n ∷ needle) 0 s)
unfolding pieces
replace_from_lem n needle replacement before [] plain h = absurd (omega (arith, h))
replace_from_lem n needle replacement before (c ∷ s) plain h =
    elim (Bool-cases (starts_with (c ∷ s) (n ∷ needle))) [
      | inl match_ ↦
          let at = pieces_at_match (n ∷ needle) c s match_ in
          let rest = pieces (n ∷ needle) (length (n ∷ needle) - 1) s in
          let behind : length (n ∷ needle) - 1 ≡ length needle = omega arith in
          let one : length rest ≡ 1 = omega (arith, h, ap length at) in
          replace_at_match (n ∷ needle) replacement before c s plain match_
          ∙ ap (λ k. replacement ++ drop k s) (sym behind)
          ∙ ap (◌++◌ replacement) (sym (only_piece (n ∷ needle) _ s one replacement))
          ∙ sym (join-nil replacement rest (pieces_cons (n ∷ needle) _ s))
          ∙ ap (join replacement) (sym at)
      | inr other ↦
          let some_ = pieces_cons (n ∷ needle) 0 s in
          let between = pieces_between (n ∷ needle) c s other in
          replace_between (n ∷ needle) replacement before c s other
          ∙ ap (◌∷◌ c) (
              replace_from_lem n needle replacement (before ++ c ∷ []) s plain (
                sym (length-push_code c (pieces (n ∷ needle) 0 s) some_)
                ∙ sym (ap length between)
                ∙ h))
          ∙ sym (join-push_code replacement c (pieces (n ∷ needle) 0 s) some_)
          ∙ ap (join replacement) (sym between)
    ]

replace_first-eq-replace_every :
    (old_string new_string before : Str)
    → includes b'$' new_string ≡ false
    → count_occurrences before old_string ≡ 1
    → replace_first old_string new_string before ≡ replace_every old_string new_string before
unfolding count_occurrences replace_first replace_every split
replace_first-eq-replace_every [] new_string before plain h = absurd (omega (arith, h))
replace_first-eq-replace_every (n ∷ needle) new_string before plain h =
    let (p, rest, e) = pieces_cons (n ∷ needle) 0 before in
    replace_from_lem n needle new_string [] before plain (omega (arith, h, ap length e))

edited-text : {a b : Str} {k n : ℕ} → edited a k ≡ edited b n → (a ≡ b) × (k ≡ n)
edited-text e = (cc, cc)

by_mode :
    (old_string new_string : Str) (replace_all : Bool) (before after : Str) (k : ℕ)
    → includes b'$' new_string ≡ false
    → str_eq old_string new_string ≡ false
    → (count_occurrences before old_string == 0) ≡ false
    → edit_text old_string new_string replace_all before ≡ edited after k
    → (after ≡ replace_every old_string new_string before)
      × (k ≡ count_occurrences before old_string)
      × ((replace_all ≡ true) ⊎ (k ≡ 1))
unfolding edit_text
by_mode old_string new_string true before after k plain d z h =
    let e = edited-text (rw (d, z) at h) in (sym e.0, sym e.1, inl refl)
by_mode old_string new_string false before after k plain d z h =
    elim (Bool-cases (ltb 1 (count_occurrences before old_string))) [
      | inl many ↦ absurd (ground arith)
      | inr few ↦
          let one : count_occurrences before old_string ≡ 1 = ground arith in
          let e = edited-text (rw (d, z, few) at h) in
          (
            sym e.0 ∙ replace_first-eq-replace_every old_string new_string before plain one,
            sym e.1 ∙ sym one,
            inr (sym e.1),
          )
    ]

-- An edit that is made, if the new text holds no `$`, replaces every occurrence of the old text,
-- each by the new text and nothing else, and reports how many there were: at least one, of a text
-- that differs from the new one. Without `replaceAll` that is a single occurrence, so an ambiguous
-- edit is never made.
pub edit_text-replaces :
    (old_string new_string : Str) (replace_all : Bool) (before after : Str) (k : ℕ)
    → includes b'$' new_string ≡ false
    → edit_text old_string new_string replace_all before ≡ edited after k
    → (after ≡ replace_every old_string new_string before)
      × (k ≡ count_occurrences before old_string)
      × (1 ≤ k)
      × (str_eq old_string new_string ≡ false)
      × ((replace_all ≡ true) ⊎ (k ≡ 1))
unfolding edit_text
edit_text-replaces old_string new_string replace_all before after k plain h =
    elim (Bool-cases (str_eq old_string new_string)) [
      | inl same ↦ absurd (ground arith)
      | inr differ ↦ elim (Bool-cases (count_occurrences before old_string == 0)) [
        | inl missing ↦ absurd (ground arith)
        | inr found ↦
            let (text, count, mode) =
              by_mode old_string new_string replace_all before after k plain differ found h in
            (text, count, ground arith, differ, mode)
      ]
    ]
