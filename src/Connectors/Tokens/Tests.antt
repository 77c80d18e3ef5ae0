-- ===== src/Connectors/Tokens/Tests.antt =====
-- packages/connectors/src/tokens.ts: a toy cipher whose tag is the key, and instances of the theorems.
-- Only the access token is printed.
use open_source_harness.Common.{
  ◌+◌, ◌-◌, ◌≡◌, ◌≢◌, refl, none, some, List, [], ◌∷◌, Str, codes, str_eq, str_eq_refl, map, arith,
  if◌then◌else◌,
}
use open_source_harness.Common.Dict.{get, values}
use open_source_harness.Connectors.Tokens.{
  StoredToken, Crypto, split_dots, encrypt_token, decrypt_token, seal_token, open_token, get_token,
  list_tokens, TokenCall, puts, removes, token_calls,
}
use open_source_harness.Connectors.Tokens.Sealed.{Dotless, Platform}
use open_source_harness.Connectors.Tokens.Stored.{plain_calls, token_calls_refine_map}

abbrev token_of : Str → Str → StoredToken
token_of provider access = record {
  provider = provider;
  access_token = access;
  refresh_token = none;
  expires_at = none;
  scopes = [];
  account = none;
}

abbrev toy : Crypto
toy = record {
  Buffer = Str;
  derive_key = λ s. s;
  encipher = λ key iv s. (s, 1 ∷ key);
  decipher = λ key iv tag s. if str_eq tag (1 ∷ key) then some s else none;
  to_base64url = λ s. map (λ c. c + 47) s;
  from_base64url = λ s. map (λ c. c - 47) s;
  stringify = λ t. 2 ∷ t.access_token;
  parse = λ s. elim s [ [] ↦ none | c ∷ access ↦ some (token_of (codes "mail") access) ];
}

toy_decodes : (s : Str) → map (λ c. c - 47) (map (λ c. c + 47) s) ≡ s
toy_decodes [] = refl
toy_decodes (c ∷ s) = ground (arith, toy_decodes s)

toy-Dotless : (s : Str) → Dotless (map (λ c. c + 47) s)
toy-Dotless [] = tt
toy-Dotless (c ∷ s) = (ground arith, toy-Dotless s)

toy_vector : (s : Str) → s ≢ [] → map (λ c. c + 47) s ≢ []
toy_vector [] ne h = ne refl
toy_vector (c ∷ s) ne h = ground arith

toy-Platform : Platform toy (λ (b : Str). b ≢ [])
toy-Platform = record {
  deciphers = λ key iv s. rw (str_eq_refl (1 ∷ key)) refl;
  decodes = toy_decodes;
  dotless = toy-Dotless;
  vector = toy_vector;
  tag = λ key iv s h. ground arith;
  text = λ key iv c s h. ground arith;
  printed = λ t h. ground arith;
}

some_vector : ◌≢◌ {A = Str} (5 ∷ []) []
some_vector h = ground arith

abbrev calls : List (TokenCall toy)
calls =
    puts (token_of (codes "mail") (codes "t1")) (5 ∷ [])
    ∷ removes (codes "drive")
    ∷ puts (token_of (codes "mail") (codes "t2")) (5 ∷ [])
    ∷ []

token_calls_refine_map_example :
    (get_token toy
        (token_calls toy (record { passphrase = codes "k"; rows = [] }) calls)
        (codes "mail")
      ≡ some (get (codes "mail") (plain_calls toy (codes "k") [] calls)))
    × (list_tokens toy (token_calls toy (record { passphrase = codes "k"; rows = [] }) calls)
        ≡ some (values (plain_calls toy (codes "k") [] calls)))
token_calls_refine_map_example =
    token_calls_refine_map toy (codes "k") (λ (b : Str). b ≢ []) toy-Platform calls (codes "mail")
      ((some_vector, refl), (tt, ((some_vector, refl), tt)))

-- Another key does not open the row.
stays_shut :
    open_token toy
      (seal_token toy (token_of (codes "mail") (codes "t")) (codes "k") (5 ∷ []))
      (codes "l")
    ≡ none
unfolding open_token seal_token encrypt_token decrypt_token split_dots str_eq
stays_shut = refl
