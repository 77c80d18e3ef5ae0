-- ===== src/Connectors/OAuth/Memory.antt =====
-- packages/connectors/src/tokens.ts, MemoryTokenStore, as the `TokenStore` that oauth.ts works on. Each
-- `put` takes the next of a sequence of random vectors.
use open_source_harness.Common.{
  ℕ, ◌+◌, ◌≡◌, refl, none, some, Str, str_eq, Bool-cases, inl, inr, if◌then◌else◌,
}
use open_source_harness.Common.Dict.{get-put, get-remove}
use open_source_harness.Connectors.Tokens.{
  StoredToken, Crypto, MemoryTokenStore, get_token, put_token, remove_token, seal_token,
}
use open_source_harness.Connectors.Tokens.Sealed.{Platform, open_token-seal_token}
use open_source_harness.Connectors.OAuth.Access.{TokenStore}

module _ (crypto : Crypto) (IsVector : Crypto.Buffer crypto → Type 0)
    (platform : Platform crypto IsVector) (vector : ℕ → Crypto.Buffer crypto)
    (vectors : (n : ℕ) → IsVector (vector n))
    (parses : (t : StoredToken) → crypto.parse (crypto.stringify t) ≡ some t) where
  pub memory_get_put :
      (store : MemoryTokenStore crypto) (n : ℕ) (t : StoredToken) (p : Str)
      → get_token crypto (put_token crypto store t (vector n)) p
        ≡ (if str_eq t.provider p then some (some t) else get_token crypto store p)
  unfolding get_token put_token
  memory_get_put store n t p = elim (Bool-cases (str_eq t.provider p)) [
    | inl same ↦
        rw (get-put t.provider p (seal_token crypto t store.passphrase (vector n)) store.rows, same)
          (rw
            (open_token-seal_token crypto IsVector platform t store.passphrase (vector n)
              (vectors n) (parses t))
            refl)
    | inr differs ↦
        rw
          (
            get-put t.provider p (seal_token crypto t store.passphrase (vector n)) store.rows,
            differs,
          )
          refl
  ]

  pub memory_get_remove :
      (store : MemoryTokenStore crypto) (q p : Str)
      → get_token crypto (remove_token crypto store q) p
        ≡ (if str_eq q p then some none else get_token crypto store p)
  unfolding get_token remove_token
  memory_get_remove store q p = elim (Bool-cases (str_eq q p)) [
    | inl same ↦ rw (get-remove q p store.rows, same) refl
    | inr differs ↦ rw (get-remove q p store.rows, differs) refl
  ]

  -- The state is the store and the count of the vectors used.
  unfoldable pub memory_store : TokenStore
  memory_store = record {
    State = MemoryTokenStore crypto × ℕ;
    get = λ s p. get_token crypto (s.0) p;
    put = λ s t. (put_token crypto (s.0) t (vector s.1), s.1 + 1);
    remove = λ s p. (remove_token crypto (s.0) p, s.1);
    get_put = λ s t p. memory_get_put (s.0) s.1 t p;
    get_remove = λ s q p. memory_get_remove (s.0) q p;
  }
