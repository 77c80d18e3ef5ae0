-- ===== src/Connectors/OAuth/Access.antt =====
-- packages/connectors/src/oauth.ts, usableAccessToken, on the `TokenStore` interface of tokens.ts. The
-- call is run alone: no other call of the store comes between its reads and its writes.
use open_source_harness.Common.{
  ℕ, ◌≡◌, refl, ◌⊎◌, inl, inr, Bool, true, false, Option, none, some, List, [], ◌∷◌, Str, str_eq,
  str_eq_refl, str_eq-false, ◌≢◌, leb, if◌then◌else◌,
}
use open_source_harness.Connectors.Tokens.{StoredToken, truthy_text, truthy_number}
use open_source_harness.Connectors.OAuth.{
  ProviderConfig, Reply, TokenRequest, Exchanged, granted, throws, rejects, refresh_access_token,
  refresh_with, refresh_request, read_refresh, refreshed, replied, accepted, or_else,
  to_stored_token,
}

-- `get` is `none` where the row cannot be opened, which throws.
pub record TokenStore : Type 1 where
  pub State : Type 0
  pub get : State → Str → Option (Option StoredToken)
  pub put : State → StoredToken → State
  pub remove : State → Str → State
  pub get_put :
      (s : State) (t : StoredToken) (p : Str)
      → get (put s t) p ≡ (if str_eq t.provider p then some (some t) else get s p)
  pub get_remove :
      (s : State) (q p : Str) → get (remove s q) p ≡ (if str_eq q p then some none else get s p)

-- `usable` carries the access token; `failed` is an exception, of the store, of `fetch` or an OAuthError.
pub data Access : Type 0 where
  usable : Str → Access
  not_connected failed : Access

-- `token.expiresAt && token.expiresAt <= Date.now()`
abbrev pub has_expired : ℕ → Option ℕ → Bool
has_expired now none = false
has_expired now (some moment) = leb moment now

usable-injective : {a b : Str} → usable a ≡ usable b → a ≡ b
usable-injective h = cc h

module _ (store : TokenStore) (fetch : TokenRequest → Option Reply) where
  open store use {State, get, put, remove, get_put, get_remove}

  abbrev pub after_refresh : State → Str → Option Exchanged → Access × State
  after_refresh state id none = (not_connected, remove state id)
  after_refresh state id (some (granted token)) = (usable token.access_token, put state token)
  after_refresh state id (some (throws message)) = (failed, state)
  after_refresh state id (some rejects) = (failed, state)

  abbrev pub with_token :
      State → ProviderConfig → ℕ → ℕ → StoredToken → Bool → (Access × State) × List TokenRequest
  with_token state config now later token true = (
    after_refresh state config.id ((refresh_access_token fetch config token later).0),
    (refresh_access_token fetch config token later).1,
  )
  with_token state config now later token false = ((usable token.access_token, state), [])

  abbrev pub with_stored :
      State
      → ProviderConfig
      → ℕ
      → ℕ
      → Option (Option StoredToken)
      → (Access × State) × List TokenRequest
  with_stored state config now later none = ((failed, state), [])
  with_stored state config now later (some none) = ((not_connected, state), [])
  with_stored state config now later (some (some token)) =
      with_token state config now later token (has_expired now (truthy_number token.expires_at))

  -- The outcome, the store afterwards and the requests that went out.
  unfoldable pub usable_access_token :
      State → ProviderConfig → ℕ → ℕ → (Access × State) × List TokenRequest
  unfolding refresh_access_token
  usable_access_token state config now later =
      with_stored state config now later (get state config.id)

  -- What the call leaves, by what it answers.
  pub record IsSettled (state : State) (config : ProviderConfig) (now : ℕ)
      (answer : (Access × State) × List TokenRequest) : Type 0 where
    -- the store holds the token that is handed out, which had not expired, or was refreshed by one
    -- request and can be refreshed again
    pub when_usable :
        (access : Str)
        → answer.0.0 ≡ usable access
        → (token : StoredToken) × (get answer.0.1 config.id ≡ some (some token))
          × (token.access_token ≡ access)
          × (((has_expired now (truthy_number token.expires_at) ≡ false)
                × (answer.0.1 ≡ state)
                × (answer.1 ≡ []))
              ⊎ ((old : StoredToken) × (refresh : Str) × (get state config.id ≡ some (some old))
                  × (has_expired now (truthy_number old.expires_at) ≡ true)
                  × (truthy_text old.refresh_token ≡ some refresh)
                  × (answer.1 ≡ refresh_request config refresh ∷ [])
                  × ((kept : Str) × (token.refresh_token ≡ some kept))))
    pub when_not_connected :
        answer.0.0 ≡ not_connected → (get answer.0.1 config.id ≡ some none) × (answer.1 ≡ [])
    pub when_failed : answer.0.0 ≡ failed → answer.0.1 ≡ state
    pub others : (p : Str) → config.id ≢ p → get answer.0.1 p ≡ get state p

  -- A refreshed token is of the same provider and has a refresh token.
  abbrev KeepsRefresh : ProviderConfig → Exchanged → Type 0
  KeepsRefresh config (granted fresh) =
      (fresh.provider ≡ config.id) × ((kept : Str) × (fresh.refresh_token ≡ some kept))
  KeepsRefresh config (throws message) = Unit
  KeepsRefresh config rejects = Unit

  refreshed-KeepsRefresh :
      (config : ProviderConfig) (token : StoredToken) (refresh : Str) (later : ℕ) (reply : Reply)
      (o : Option Str)
      → KeepsRefresh config (refreshed config token refresh later reply o)
  unfolding to_stored_token
  refreshed-KeepsRefresh config token refresh later reply none = tt
  refreshed-KeepsRefresh config token refresh later reply (some access) =
      (refl, (or_else reply.payload.refresh_token refresh, refl))

  replied-KeepsRefresh :
      (config : ProviderConfig) (token : StoredToken) (refresh : Str) (later : ℕ) (o : Option Reply)
      → KeepsRefresh config (replied (read_refresh config token refresh later) o)
  unfolding read_refresh
  replied-KeepsRefresh config token refresh later none = tt
  replied-KeepsRefresh config token refresh later (some reply) =
      refreshed-KeepsRefresh config token refresh later reply (accepted false reply)

  module _ (state : State) (config : ProviderConfig) (now : ℕ) (old : StoredToken)
      (held : get state config.id ≡ some (some old))
      (expired : has_expired now (truthy_number old.expires_at) ≡ true) where
    refreshed-IsSettled :
        (refresh : Str) (r : Exchanged)
        → truthy_text old.refresh_token ≡ some refresh
        → KeepsRefresh config r
        → IsSettled state config now
            (after_refresh state config.id (some r), refresh_request config refresh ∷ [])
    refreshed-IsSettled refresh (granted fresh) can (same, kept) = record {
      when_usable = λ access h. (
        fresh,
        rw (get_put state fresh config.id, same, str_eq_refl config.id) refl,
        usable-injective h,
        inr (old, refresh, held, expired, can, refl, kept),
      );
      when_not_connected = λ h. cc;
      when_failed = λ h. cc;
      others = λ p differs. rw (get_put state fresh p, same, str_eq-false config.id p differs) refl;
    }
    refreshed-IsSettled refresh (throws message) can w = record {
      when_usable = λ access h. cc;
      when_not_connected = λ h. cc;
      when_failed = λ h. refl;
      others = λ p differs. refl;
    }
    refreshed-IsSettled refresh rejects can w = record {
      when_usable = λ access h. cc;
      when_not_connected = λ h. cc;
      when_failed = λ h. refl;
      others = λ p differs. refl;
    }

    unrefreshed-IsSettled : IsSettled state config now (after_refresh state config.id none, [])
    unrefreshed-IsSettled = record {
      when_usable = λ access h. cc;
      when_not_connected =
          λ h. (rw (get_remove state config.id config.id, str_eq_refl config.id) refl, refl);
      when_failed = λ h. cc;
      others =
          λ p differs. rw (get_remove state config.id p, str_eq-false config.id p differs) refl;
    }

    expired-IsSettled :
        (later : ℕ) (o : Option Str)
        → truthy_text old.refresh_token ≡ o
        → IsSettled state config now (
          after_refresh state config.id ((refresh_with fetch config old later o).0),
          (refresh_with fetch config old later o).1,
        )
    expired-IsSettled later none has = unrefreshed-IsSettled
    expired-IsSettled later (some refresh) has =
        refreshed-IsSettled refresh _ has
          (replied-KeepsRefresh config old refresh later (fetch (refresh_request config refresh)))

  current-IsSettled :
      (state : State) (config : ProviderConfig) (now later : ℕ) (token : StoredToken) (b : Bool)
      → get state config.id ≡ some (some token)
      → has_expired now (truthy_number token.expires_at) ≡ b
      → IsSettled state config now (with_token state config now later token b)
  unfolding refresh_access_token
  current-IsSettled state config now later token true held expired =
      expired-IsSettled state config now token held expired later (truthy_text token.refresh_token)
        refl
  current-IsSettled state config now later token false held current = record {
    when_usable = λ access h. (token, held, usable-injective h, inl (current, refl, refl));
    when_not_connected = λ h. cc;
    when_failed = λ h. cc;
    others = λ p differs. refl;
  }

  stored-IsSettled :
      (state : State) (config : ProviderConfig) (now later : ℕ) (o : Option (Option StoredToken))
      → get state config.id ≡ o
      → IsSettled state config now (with_stored state config now later o)
  stored-IsSettled state config now later none held = record {
    when_usable = λ access h. cc;
    when_not_connected = λ h. cc;
    when_failed = λ h. refl;
    others = λ p differs. refl;
  }
  stored-IsSettled state config now later (some none) held = record {
    when_usable = λ access h. cc;
    when_not_connected = λ h. (held, refl);
    when_failed = λ h. cc;
    others = λ p differs. refl;
  }
  stored-IsSettled state config now later (some (some token)) held =
      current-IsSettled state config now later token _ held refl

  -- The access token that is handed out is that of the token the store then holds for the provider.
  -- Either that one had not expired, and nothing was sent or changed, or the one before it had, and
  -- one request with its refresh token brought the new one, which has a refresh token too. Where the
  -- answer is that the provider is not connected, the store holds nothing for it and nothing was
  -- sent; where the call throws, the store is as it was. Tokens of other providers stay.
  pub usable_access_token-IsSettled :
      (state : State) (config : ProviderConfig) (now later : ℕ)
      → IsSettled state config now (usable_access_token state config now later)
  unfolding usable_access_token
  usable_access_token-IsSettled state config now later =
      stored-IsSettled state config now later (get state config.id) refl
