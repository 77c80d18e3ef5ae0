-- ===== src/Connectors/Tokens/Sealed.antt =====
-- packages/connectors/src/tokens.ts, sealToken and openToken: what is sealed can be opened again.
use open_source_harness.Common.{
  ℕ, ◌≡◌, ◌≢◌, refl, ap, ◌∙◌, false, some, [], ◌∷◌, ◌++◌, Str, ◌==◌, All,
}
use open_source_harness.Connectors.Tokens.{
  StoredToken, Crypto, push_unit, split_dots, encrypt_token, decrypt_parts, decrypt_token,
  seal_token, open_token,
}

abbrev pub Dotless : Str → Type 0
Dotless s = All (λ c. (c == b'.') ≡ false) s

-- A text without a dot is the first part of what it stands before.
split-Dotless : (s rest : Str) → Dotless s → split_dots (s ++ b'.' ∷ rest) ≡ s ∷ split_dots rest
unfolding split_dots
split-Dotless [] rest d = refl
split-Dotless (c ∷ s) rest (e, d) = rw (e) (ap (push_unit c) (split-Dotless s rest d))

split_last : (s : Str) → Dotless s → split_dots s ≡ s ∷ []
unfolding split_dots
split_last [] d = refl
split_last (c ∷ s) (e, d) = rw (e) (ap (push_unit c) (split_last s d))

module _ (crypto : Crypto) where
  open crypto use {
    Buffer, derive_key, encipher, decipher, to_base64url, from_base64url, stringify, parse,
  }

  -- What the cipher and the encodings promise, for vectors of the length that is used: a text that was
  -- enciphered is deciphered with its own key, vector and tag, base64url has no dot and is decoded to
  -- what was encoded, and of a vector, a tag and a ciphertext of a text it is not empty, nor is JSON.
  pub record Platform (IsVector : Buffer → Type 0) : Type 0 where
    pub deciphers :
        (key iv : Buffer) (s : Str)
        → decipher key iv ((encipher key iv s).1) ((encipher key iv s).0) ≡ some s
    pub decodes : (b : Buffer) → from_base64url (to_base64url b) ≡ b
    pub dotless : (b : Buffer) → Dotless (to_base64url b)
    pub vector : (iv : Buffer) → IsVector iv → to_base64url iv ≢ []
    pub tag : (key iv : Buffer) (s : Str) → to_base64url ((encipher key iv s).1) ≢ []
    pub text : (key iv : Buffer) (c : ℕ) (s : Str) → to_base64url ((encipher key iv (c ∷ s)).0) ≢ []
    pub printed : (t : StoredToken) → stringify t ≢ []

  parts_deciphered :
      (passphrase iv tag text : Str)
      → iv ≢ []
      → tag ≢ []
      → text ≢ []
      → decrypt_parts crypto passphrase (iv ∷ tag ∷ text ∷ [])
        ≡ decipher
            (derive_key passphrase)
            (from_base64url iv)
            (from_base64url tag)
            (from_base64url text)
  parts_deciphered passphrase [] tag text a b c = absurd (a refl)
  parts_deciphered passphrase (i ∷ iv) [] text a b c = absurd (b refl)
  parts_deciphered passphrase (i ∷ iv) (t ∷ tag) [] a b c = absurd (c refl)
  parts_deciphered passphrase (i ∷ iv) (t ∷ tag) (d ∷ text) a b c = refl

  module _ (IsVector : Buffer → Type 0) (platform : Platform IsVector) where
    split_payload :
        (s passphrase : Str) (iv : Buffer)
        → split_dots (encrypt_token crypto s passphrase iv)
          ≡ to_base64url iv
            ∷ to_base64url ((encipher (derive_key passphrase) iv s).1)
            ∷ to_base64url ((encipher (derive_key passphrase) iv s).0)
            ∷ []
    unfolding encrypt_token
    split_payload s passphrase iv =
        split-Dotless (to_base64url iv) _ (platform.dotless iv)
        ∙ ap (◌∷◌ (to_base64url iv)) (
            split-Dotless (to_base64url ((encipher (derive_key passphrase) iv s).1)) _
              (platform.dotless _)
            ∙ ap (◌∷◌ (to_base64url ((encipher (derive_key passphrase) iv s).1)))
                (split_last _ (platform.dotless _)))

    decrypted :
        (s passphrase : Str) (iv : Buffer)
        → IsVector iv
        → s ≢ []
        → decrypt_token crypto (encrypt_token crypto s passphrase iv) passphrase ≡ some s
    unfolding decrypt_token
    decrypted [] passphrase iv v ne = absurd (ne refl)
    decrypted (c ∷ s) passphrase iv v ne =
        let key = derive_key passphrase in
        ap (decrypt_parts crypto passphrase) (split_payload (c ∷ s) passphrase iv)
        ∙ parts_deciphered passphrase _ _ _ (platform.vector iv v) (platform.tag key iv (c ∷ s))
            (platform.text key iv c s)
        ∙ rw
            (
              platform.decodes iv,
              platform.decodes ((encipher key iv (c ∷ s)).1),
              platform.decodes ((encipher key iv (c ∷ s)).0),
            )
            (platform.deciphers key iv (c ∷ s))

    -- A token that is sealed is opened with the same passphrase as it was, if it is parsed from its
    -- JSON as it was.
    pub open_token-seal_token :
        (token : StoredToken) (passphrase : Str) (iv : Buffer)
        → IsVector iv
        → parse (stringify token) ≡ some token
        → open_token crypto (seal_token crypto token passphrase iv) passphrase ≡ some token
    unfolding open_token seal_token
    open_token-seal_token token passphrase iv v reads =
        rw (decrypted (stringify token) passphrase iv v (platform.printed token)) reads
