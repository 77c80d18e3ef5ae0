-- ===== src/Connectors/Tools/Drive.antt =====
-- packages/connectors/src/tools.ts, driveSearch: the query inside the quotes of the Drive query language.
use open_source_harness.Common.{
  ℕ, ◌≡◌, refl, ap, ◌∙◌, Bool, true, false, Option, none, some, [], ◌∷◌, ◌++◌, Str, codes, ◌==◌,
  append_assoc, Bool-cases, inl, inr, arith, if◌then◌else◌,
}
use open_source_harness.Connectors.Tools.Defs.{replace_unit, escape_query}

abbrev pub with_unit : ℕ → Option (Str × Str) → Option (Str × Str)
with_unit c none = none
with_unit c (some (text, rest)) = some (c ∷ text, rest)

-- A literal of the query language, after its opening quote: a backslash takes the next unit as it is,
-- and a quote ends the literal. The text of the literal, and what follows it.
unfoldable pub read_literal : Bool → Str → Option (Str × Str)
read_literal escaped [] = none
read_literal true (c ∷ s) = with_unit c (read_literal false s)
read_literal false (c ∷ s) =
    let plain = read_literal false s in
    let quoted = read_literal true s in
    if c == b'\\' then quoted else if c == b'\'' then some ([], s) else with_unit c plain

-- what a unit becomes
abbrev escaped_unit : ℕ → Str
escaped_unit c = if c == b'\\' then codes "\\\\" else if c == b'\'' then codes "\\'" else c ∷ []

escape_step : (c : ℕ) (q : Str) → escape_query (c ∷ q) ≡ escaped_unit c ++ escape_query q
unfolding escape_query replace_unit
escape_step c q = elim (Bool-cases (c == b'\\')) [
  | inl slash ↦ rw (slash) refl
  | inr other ↦ elim (Bool-cases (c == b'\'')) [
    | inl quote ↦ rw (other) (rw (quote) refl)
    | inr plain ↦ rw (other) (rw (plain) refl)
  ]
]

read_unit :
    (c : ℕ) (s : Str)
    → read_literal false (escaped_unit c ++ s) ≡ with_unit c (read_literal false s)
unfolding read_literal
read_unit c s = elim (Bool-cases (c == b'\\')) [
  | inl slash ↦
      let same : b'\\' ≡ c = ground (arith, slash) in
      rw (slash) (ap (λ n. with_unit n (read_literal false s)) same)
  | inr other ↦ elim (Bool-cases (c == b'\'')) [
    | inl quote ↦
        let same : b'\'' ≡ c = ground (arith, quote) in
        rw (other) (rw (quote) (ap (λ n. with_unit n (read_literal false s)) same))
    | inr plain ↦ rw (other) (rw (plain) (rw (other) (rw (plain) refl)))
  ]
]

-- Where the escaped query stands between quotes, what is read back is the query itself, and the
-- literal ends at the closing quote, whatever the query holds: no query can leave its quotes.
pub read_literal-escape_query :
    (query rest : Str)
    → read_literal false (escape_query query ++ b'\'' ∷ rest) ≡ some (query, rest)
unfolding read_literal escape_query replace_unit
read_literal-escape_query [] rest = refl
read_literal-escape_query (c ∷ query) rest =
    ap (λ (s : Str). read_literal false (s ++ b'\'' ∷ rest)) (escape_step c query)
    ∙ (ap (λ s. read_literal false s)
          (append_assoc (escaped_unit c) (escape_query query) (b'\'' ∷ rest))
        ∙ (read_unit c (escape_query query ++ b'\'' ∷ rest)
            ∙ ap (with_unit c) (read_literal-escape_query query rest)))
