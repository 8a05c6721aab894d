-- ===== src/Mls/Auth/Unexpired.antt =====
-- A call of getAuthHeaders that is answered from the cache.
use Prim.Native.String.{◌++◌}
use frontstead_kit.Prelude.{
  ℕ, ◌+◌, ◌*◌, ◌<◌, ◌≡◌, ◌≢◌, inl, inr, refl, ap, sym, ◌∙◌, String, true, false, Option, none, some,
  or_else, arith, Bool-cases,
}
use frontstead_kit.Mls.Auth.{
  TokenResponse, CachedToken, landed, Task, served, Auth, set_at, token_of, is_stale, header,
  header_of, await_refresh, get_auth_headers, Reach,
}
use frontstead_kit.Mls.Auth.Flights.{IsSingle, Reach-IsSingle, served_header}

module _ (buffer : Option ℕ) where
  stale_call :
      (s : Auth) (c now : ℕ)
      → is_stale buffer s.cached now ≡ true
      → get_auth_headers buffer c now s ≡ await_refresh buffer c s.inflight s
  unfolding get_auth_headers
  stale_call s c now stale = rw (get_auth_headers, stale) refl

  fresh_call :
      (s : Auth) (c now : ℕ)
      → is_stale buffer s.cached now ≡ false
      → get_auth_headers buffer c now s
        ≡ (record s { tasks = set_at c (header_of buffer s.cached) s.tasks })
  unfolding get_auth_headers
  fresh_call s c now fresh = rw (get_auth_headers, fresh) refl

  not_awaited :
      (s : Auth) (c : ℕ) (o : Option ℕ) (h : String)
      → (await_refresh buffer c o s).tasks c ≢ served h
  not_awaited s c none h e = ground (arith, e)
  not_awaited s c (some n) h e = ground (arith, e)

  served_now :
      (s : Auth) (c : ℕ) (a : Task) (h : String) → set_at c a s.tasks c ≡ served h → a ≡ served h
  served_now s c a h e = ground (arith, e)

  unexpired :
      (r : TokenResponse) (at now : ℕ)
      → is_stale buffer (some (token_of buffer r at)) now ≡ false
      → now + or_else buffer 60 * 1000 < at + or_else r.expires_in 3600 * 1000
  unfolding is_stale token_of
  unexpired r at now e = ground (arith, e)

  -- A landed answer of the endpoint whose token is in the cache, is the one in the header, and will
  -- not expire before the buffer, here in seconds, has passed.
  pub record IsFresh (s : Auth) (now : ℕ) (h : String) : Type 0 where
    pub flight : ℕ
    pub response : TokenResponse
    pub answered_at : ℕ
    pub answered : s.flights flight ≡ landed response answered_at
    pub in_cache : s.cached ≡ some (token_of buffer response answered_at)
    pub bearer : h ≡ "Bearer " ++ response.access_token
    pub lasts :
        now + or_else buffer 60 * 1000 < answered_at + or_else response.expires_in 3600 * 1000

  text_of :
      (r : TokenResponse) (at : ℕ)
      → header buffer (token_of buffer r at) ≡ "Bearer " ++ r.access_token
  unfolding token_of
  text_of r at = refl

  IsFresh-header :
      (s : Auth) (o : Option CachedToken) (now : ℕ) (h : String)
      → s.cached ≡ o
      → IsSingle buffer s
      → is_stale buffer o now ≡ false
      → header_of buffer o ≡ served h
      → IsFresh s now h
  unfolding is_stale
  IsFresh-header s none now h e i fresh f = absurd (ground (arith, f))
  IsFresh-header s (some t) now h e i fresh f =
      let issued = i.issued t e in
      record {
        flight = issued.flight;
        response = issued.response;
        answered_at = issued.answered_at;
        answered = issued.answered;
        in_cache = e ∙ ap some issued.token;
        bearer =
            served_header buffer (header buffer t) h f
            ∙ ap (header buffer) issued.token
            ∙ text_of issued.response issued.answered_at;
        lasts =
            unexpired issued.response issued.answered_at now
              (ap (λ u. is_stale buffer (some u) now) (sym issued.token) ∙ fresh);
      }

  -- In a reachable state a task that calls and is served at once gets the token of an answer that the
  -- endpoint gave to one of the refreshes, which is the cached one and will not expire before the
  -- buffer has passed.
  pub get_auth_headers-IsFresh :
      (s : Auth) (c now : ℕ) (h : String)
      → Reach buffer s
      → (get_auth_headers buffer c now s).tasks c ≡ served h
      → IsFresh s now h
  unfolding get_auth_headers
  get_auth_headers-IsFresh s c now h reach e = elim (Bool-cases (is_stale buffer s.cached now)) [
    | inl stale ↦
        absurd
          (not_awaited s c s.inflight h (ap (λ x. x.tasks c) (sym (stale_call s c now stale)) ∙ e))
    | inr fresh ↦ IsFresh-header s s.cached now h refl (Reach-IsSingle buffer s reach) fresh (
        served_now s c (header_of buffer s.cached) h
          (ap (λ x. x.tasks c) (sym (fresh_call s c now fresh)) ∙ e))
  ]
