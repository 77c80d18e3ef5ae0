-- ===== src/Connectors/Tokens.antt =====
-- packages/connectors/src/tokens.ts: OAuth tokens, encrypted at rest. The cipher, base64url and JSON are
-- those of the platform (`Crypto`), and a random initialisation vector is an argument.
pub mod Sealed
pub mod Stored
pub mod Tests
use open_source_harness.Common.{
  ℕ, Bool, true, false, Option, none, some, List, [], ◌∷◌, ◌++◌, Str, codes, ◌==◌, if◌then◌else◌,
}
use open_source_harness.Common.Monad.{◌>>=◌}
use open_source_harness.Common.Dict.{get, put, remove, values}

pub record StoredToken : Type 0 where
  pub provider : Str
  pub access_token : Str
  pub refresh_token : Option Str
  pub expires_at : Option ℕ
  pub scopes : List Str
  pub account : Option Str

pub record EncryptedTokenRow : Type 0 where
  pub provider : Str
  pub payload : Str
  pub account : Option Str
  pub scopes : List Str
  pub expires_at : Option ℕ

pub record Crypto : Type 1 where
  pub Buffer : Type 0
  -- `deriveKey`, on scrypt
  pub derive_key : Str → Buffer
  -- key, vector and text to ciphertext and tag
  pub encipher : Buffer → Buffer → Str → Buffer × Buffer
  -- key, vector, tag and ciphertext; `none` where the tag does not fit
  pub decipher : Buffer → Buffer → Buffer → Buffer → Option Str
  pub to_base64url : Buffer → Str
  pub from_base64url : Str → Buffer
  pub stringify : StoredToken → Str
  pub parse : Str → Option StoredToken

-- `s.split('.')`
abbrev pub push_unit : ℕ → List Str → List Str
push_unit c [] = (c ∷ []) ∷ []
push_unit c (part ∷ parts) = (c ∷ part) ∷ parts

unfoldable pub split_dots : Str → List Str
split_dots [] = [] ∷ []
split_dots (c ∷ s) = let rest = split_dots s in if c == b'.' then [] ∷ rest else push_unit c rest

-- `x ? … : …` on an optional text and an optional number
abbrev pub truthy_text : Option Str → Option Str
truthy_text none = none
truthy_text (some []) = none
truthy_text (some (c ∷ s)) = some (c ∷ s)

abbrev pub truthy_number : Option ℕ → Option ℕ
truthy_number none = none
truthy_number (some n) = if n == 0 then none else some n

module _ (crypto : Crypto) where
  open crypto use {
    Buffer, derive_key, encipher, decipher, to_base64url, from_base64url, stringify, parse,
  }

  unfoldable pub encrypt_token : Str → Str → Buffer → Str
  encrypt_token plaintext passphrase iv =
      let sealed = encipher (derive_key passphrase) iv plaintext in
      to_base64url iv ++ (b'.' ∷ (to_base64url (sealed.1) ++ (b'.' ∷ to_base64url (sealed.0))))

  -- the parts are used when none of the first three is empty
  abbrev pub decrypt_parts : Str → List Str → Option Str
  decrypt_parts passphrase ((i ∷ iv) ∷ (t ∷ tag) ∷ (d ∷ data_) ∷ rest) =
      decipher (derive_key passphrase) (from_base64url (i ∷ iv)) (from_base64url (t ∷ tag))
        (from_base64url (d ∷ data_))
  decrypt_parts passphrase _ = none

  unfoldable pub decrypt_token : Str → Str → Option Str
  unfolding split_dots
  decrypt_token payload passphrase = decrypt_parts passphrase (split_dots payload)

  unfoldable pub seal_token : StoredToken → Str → Buffer → EncryptedTokenRow
  unfolding encrypt_token
  seal_token token passphrase iv = record {
    provider = token.provider;
    payload = encrypt_token (stringify token) passphrase iv;
    account = truthy_text token.account;
    scopes = token.scopes;
    expires_at = truthy_number token.expires_at;
  }

  unfoldable pub open_token : EncryptedTokenRow → Str → Option StoredToken
  unfolding decrypt_token
  open_token row passphrase = do plaintext ← decrypt_token row.payload passphrase; parse plaintext

  pub record MemoryTokenStore : Type 0 where
    pub passphrase : Str
    pub rows : List (Str × EncryptedTokenRow)

  -- The constructor; without a key it refuses.
  unfoldable pub new_token_store : Str → Option MemoryTokenStore
  new_token_store [] = none
  new_token_store (c ∷ passphrase) = some (record { passphrase = c ∷ passphrase; rows = [] })

  unfoldable pub put_token : MemoryTokenStore → StoredToken → Buffer → MemoryTokenStore
  unfolding put seal_token
  put_token store token iv = record store {
    rows = put token.provider (seal_token token store.passphrase iv) store.rows;
  }

  abbrev pub opened : Str → Option EncryptedTokenRow → Option (Option StoredToken)
  opened passphrase none = some none
  opened passphrase (some row) = do token ← open_token row passphrase; some (some token)

  -- `some none` where the provider has no row
  unfoldable pub get_token : MemoryTokenStore → Str → Option (Option StoredToken)
  unfolding get
  get_token store provider = opened store.passphrase (get provider store.rows)

  unfoldable pub open_rows : Str → List EncryptedTokenRow → Option (List StoredToken)
  unfolding open_token
  open_rows passphrase [] = some []
  open_rows passphrase (row ∷ rows) = do
    token ← open_token row passphrase
    rest ← open_rows passphrase rows
    some (token ∷ rest)

  unfoldable pub list_tokens : MemoryTokenStore → Option (List StoredToken)
  unfolding open_rows
  list_tokens store = open_rows store.passphrase (values store.rows)

  unfoldable pub remove_token : MemoryTokenStore → Str → MemoryTokenStore
  unfolding remove
  remove_token store provider = record store { rows = remove provider store.rows }

  pub data TokenCall : Type 0 where
    puts : StoredToken → Buffer → TokenCall
    removes : Str → TokenCall

  unfoldable pub token_calls : MemoryTokenStore → List TokenCall → MemoryTokenStore
  unfolding put_token remove_token
  token_calls store [] = store
  token_calls store (puts token iv ∷ calls) = token_calls (put_token store token iv) calls
  token_calls store (removes provider ∷ calls) = token_calls (remove_token store provider) calls
