-- ===== src/Connectors/Tokens/Stored.antt =====
-- packages/connectors/src/tokens.ts, MemoryTokenStore: the store against a plain map of tokens.
use open_source_harness.Common.{
  ◌≡◌, refl, sym, ap, ◌∙◌, inl, inr, true, false, some, List, [], ◌∷◌, Str, str_eq, All, Bool-cases,
}
use open_source_harness.Common.Dict.{get, put, remove, values}
use open_source_harness.Connectors.Tokens.{
  StoredToken, EncryptedTokenRow, Crypto, seal_token, open_token, put_token, get_token, open_rows,
  list_tokens, remove_token, TokenCall, puts, removes, token_calls,
}
use open_source_harness.Connectors.Tokens.Sealed.{Platform, open_token-seal_token}

module _ (crypto : Crypto) (passphrase : Str) where
  -- the calls on a map from providers to tokens, in the clear
  abbrev pub plain_calls :
      List (Str × StoredToken) → List (TokenCall crypto) → List (Str × StoredToken)
  plain_calls tokens [] = tokens
  plain_calls tokens (puts token iv ∷ calls) = plain_calls (put token.provider token tokens) calls
  plain_calls tokens (removes provider ∷ calls) = plain_calls (remove provider tokens) calls

  -- Row by row, what is stored opens to the token.
  abbrev Opens : List (Str × EncryptedTokenRow) → List (Str × StoredToken) → Type 0
  Opens [] [] = Unit {0}
  Opens [] (t ∷ tokens) = ⊥
  Opens (r ∷ rows) [] = ⊥
  Opens ((k, row) ∷ rows) ((j, token) ∷ tokens) =
      (k ≡ j) × (open_token crypto row passphrase ≡ some token) × Opens rows tokens

  put-Opens :
      (k : Str) (row : EncryptedTokenRow) (token : StoredToken)
      (rows : List (Str × EncryptedTokenRow)) (tokens : List (Str × StoredToken))
      → open_token crypto row passphrase ≡ some token
      → Opens rows tokens
      → Opens (put k row rows) (put k token tokens)
  unfolding put
  put-Opens k row token [] [] o w = (refl, o, tt)
  put-Opens k row token [] (t ∷ tokens) o w = absurd w
  put-Opens k row token (r ∷ rows) [] o w = absurd w
  put-Opens k row token ((i, r) ∷ rows) ((j, t) ∷ tokens) o (e, p, w) =
      elim (Bool-cases (str_eq i k)) [
        | inl same ↦
            let same_j : str_eq j k ≡ true = ap (λ x. str_eq x k) (sym e) ∙ same in
            rw (same) (rw (same_j) (e, o, w))
        | inr differ ↦
            let differ_j : str_eq j k ≡ false = ap (λ x. str_eq x k) (sym e) ∙ differ in
            rw (differ) (rw (differ_j) (e, p, put-Opens k row token rows tokens o w))
      ]

  remove-Opens :
      (k : Str) (rows : List (Str × EncryptedTokenRow)) (tokens : List (Str × StoredToken))
      → Opens rows tokens
      → Opens (remove k rows) (remove k tokens)
  unfolding remove
  remove-Opens k [] [] w = tt
  remove-Opens k [] (t ∷ tokens) w = absurd w
  remove-Opens k (r ∷ rows) [] w = absurd w
  remove-Opens k ((i, r) ∷ rows) ((j, t) ∷ tokens) (e, p, w) = elim (Bool-cases (str_eq i k)) [
    | inl same ↦
        let same_j : str_eq j k ≡ true = ap (λ x. str_eq x k) (sym e) ∙ same in
        rw (same) (rw (same_j) (remove-Opens k rows tokens w))
    | inr differ ↦
        let differ_j : str_eq j k ≡ false = ap (λ x. str_eq x k) (sym e) ∙ differ in
        rw (differ) (rw (differ_j) (e, p, remove-Opens k rows tokens w))
  ]

  get-Opens :
      (k : Str) (rows : List (Str × EncryptedTokenRow)) (tokens : List (Str × StoredToken))
      → Opens rows tokens
      → get_token crypto (record { passphrase = passphrase; rows = rows }) k ≡ some (get k tokens)
  unfolding get_token get
  get-Opens k [] [] w = refl
  get-Opens k [] (t ∷ tokens) w = absurd w
  get-Opens k (r ∷ rows) [] w = absurd w
  get-Opens k ((i, r) ∷ rows) ((j, t) ∷ tokens) (e, p, w) = elim (Bool-cases (str_eq i k)) [
    | inl same ↦
        let same_j : str_eq j k ≡ true = ap (λ x. str_eq x k) (sym e) ∙ same in
        rw (get_token, get, same) (rw (same_j) (rw (p) refl))
    | inr differ ↦
        let differ_j : str_eq j k ≡ false = ap (λ x. str_eq x k) (sym e) ∙ differ in
        rw (get_token, get, differ) (rw (differ_j) (get-Opens k rows tokens w))
  ]

  list-Opens :
      (rows : List (Str × EncryptedTokenRow)) (tokens : List (Str × StoredToken))
      → Opens rows tokens
      → open_rows crypto passphrase (values rows) ≡ some (values tokens)
  unfolding open_rows
  list-Opens [] [] w = refl
  list-Opens [] (t ∷ tokens) w = absurd w
  list-Opens (r ∷ rows) [] w = absurd w
  list-Opens ((i, r) ∷ rows) ((j, t) ∷ tokens) (e, p, w) =
      rw (p) (rw (list-Opens rows tokens w) refl)

  module _ (IsVector : Crypto.Buffer crypto → Type 0) (platform : Platform crypto IsVector) where
    -- A token that is put is parsed from its JSON, and the vector has the length that is used.
    abbrev pub Fits : TokenCall crypto → Type 0
    Fits (puts token iv) = IsVector iv × (crypto.parse (crypto.stringify token) ≡ some token)
    Fits (removes provider) = Unit {0}

    calls-Opens :
        (rows : List (Str × EncryptedTokenRow)) (tokens : List (Str × StoredToken))
        (calls : List (TokenCall crypto))
        → All Fits calls
        → Opens rows tokens
        → Opens
            (token_calls crypto (record { passphrase = passphrase; rows = rows }) calls).rows
            (plain_calls tokens calls)
          × ((token_calls crypto (record { passphrase = passphrase; rows = rows }) calls).passphrase
              ≡ passphrase)
    unfolding token_calls put_token remove_token
    calls-Opens rows tokens [] v w = (w, refl)
    calls-Opens rows tokens (puts token iv ∷ calls) ((v, reads), vs) w =
        calls-Opens (put token.provider (seal_token crypto token passphrase iv) rows)
          (put token.provider token tokens) calls vs
          (put-Opens token.provider _ token rows tokens
            (open_token-seal_token crypto IsVector platform token passphrase iv v reads) w)
    calls-Opens rows tokens (removes provider ∷ calls) (v, vs) w =
        calls-Opens (remove provider rows) (remove provider tokens) calls vs
          (remove-Opens provider rows tokens w)

    -- After any sequence of calls on a new store, a token that is asked for is the one that was put
    -- last for its provider and not removed since, and the list is that of those tokens, as if the
    -- store held them in the clear: nothing fails to open. This needs each token to be parsed from its
    -- JSON as it was.
    pub token_calls_refine_map :
        (calls : List (TokenCall crypto)) (provider : Str)
        → All Fits calls
        → (get_token crypto
              (token_calls crypto (record { passphrase = passphrase; rows = [] }) calls)
              provider
            ≡ some (get provider (plain_calls [] calls)))
          × (list_tokens crypto
                (token_calls crypto (record { passphrase = passphrase; rows = [] }) calls)
              ≡ some (values (plain_calls [] calls)))
    unfolding list_tokens
    token_calls_refine_map calls provider vs =
        let (w, same) = calls-Opens [] [] calls vs tt in
        let store = token_calls crypto (record { passphrase = passphrase; rows = [] }) calls in
        (
          ap (λ p. get_token crypto (record { passphrase = p; rows = store.rows }) provider) same
              ∙ get-Opens provider store.rows (plain_calls [] calls) w,
          ap (λ p. open_rows crypto p (values store.rows)) same
              ∙ list-Opens store.rows (plain_calls [] calls) w,
        )
