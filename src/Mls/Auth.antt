-- ===== src/Mls/Auth.antt =====
-- The bearer token of OAuth2 client credentials and its single flight,
-- apps/mls-service/src/connectors/reso/auth/OAuth2ClientCredentialsAuth.ts. Calls of getAuthHeaders
-- are tasks of one event loop, which run from `await` to `await`; the token endpoint answers when it
-- will. Instants are in milliseconds.
pub mod Flights
pub mod Unexpired
mod Examples
pub mod Issued
use Prim.Native.String.{◌++◌}
use frontstead_kit.Prelude.{
  ℕ, suc, ◌+◌, ◌*◌, String, Bool, true, false, Option, none, some, ◌≡◌, or_else, ◌==◌,
  if◌then◌else◌,
}
use frontstead_kit.Prelude.Int.{ℤ, pos, sub_ℕ, leb_ℤ}

pub record TokenResponse : Type 0 where
  pub access_token : String
  pub expires_in : Option ℕ

pub record CachedToken : Type 0 where
  pub access_token : String
  pub expires_at : ℤ

-- A call of `refresh`, by its number: not begun, waiting for the endpoint, answered at an instant,
-- or rejected.
pub data Flight : Type 0 where
  unused flying : Flight
  landed : TokenResponse → (now : ℕ) → Flight
  crashed : Flight

-- A call of getAuthHeaders: not begun, at `await this.inflight` for a refresh, resolved to a header,
-- or rejected.
pub data Task : Type 0 where
  ready : Task
  awaiting : (flight : ℕ) → Task
  served : (header : String) → Task
  rejected : Task

-- The object, its promises and its callers.
pub record Auth : Type 0 where
  pub cached : Option CachedToken
  pub inflight : Option ℕ
  pub started : ℕ
  pub flights : ℕ → Flight
  pub tasks : ℕ → Task

abbrev pub new_auth : Auth
new_auth = record {
  cached = none;
  inflight = none;
  started = 0;
  flights = λ n. unused;
  tasks = λ c. ready;
}

abbrev pub set_at : {A : Type 0} → ℕ → A → (ℕ → A) → ℕ → A
set_at n a f k = if n == k then a else f k

module _ (expiry_buffer_sec : Option ℕ) where
  -- The result of `refresh`.
  unfoldable pub token_of : TokenResponse → (now : ℕ) → CachedToken
  token_of r now = record {
    access_token = r.access_token;
    expires_at =
        sub_ℕ (now + or_else r.expires_in 3600 * 1000) (or_else expiry_buffer_sec 60 * 1000);
  }

  -- `!this.cached || this.cached.expiresAt <= now`
  unfoldable pub is_stale : Option CachedToken → (now : ℕ) → Bool
  is_stale none now = true
  is_stale (some t) now = leb_ℤ t.expires_at (pos now)

  abbrev pub header : CachedToken → String
  header t = "Bearer " ++ t.access_token

  abbrev pub header_of : Option CachedToken → Task
  header_of none = rejected
  header_of (some t) = served (header t)

  -- `this.inflight ??= this.refresh()…`, and the task that awaits it.
  abbrev pub await_refresh : (task : ℕ) → Option ℕ → Auth → Auth
  await_refresh c (some n) s = record s { tasks = set_at c (awaiting n) s.tasks }
  await_refresh c none s = record s {
    inflight = some s.started;
    started = suc s.started;
    flights = set_at s.started flying s.flights;
    tasks = set_at c (awaiting s.started) s.tasks;
  }

  -- getAuthHeaders up to its first `await`, or to its end.
  unfoldable pub get_auth_headers : (task now : ℕ) → Auth → Auth
  get_auth_headers c now s =
      if is_stale s.cached now
      then await_refresh c s.inflight s
      else record s { tasks = set_at c (header_of s.cached) s.tasks }

  -- The endpoint's answer to a refresh, with the `finally` that follows.
  abbrev pub land_refresh : (flight : ℕ) → TokenResponse → (now : ℕ) → Auth → Auth
  land_refresh n r now s = record s { inflight = none; flights = set_at n (landed r now) s.flights }

  abbrev pub crash_refresh : (flight : ℕ) → Auth → Auth
  crash_refresh n s = record s { inflight = none; flights = set_at n crashed s.flights }

  -- `this.cached = await this.inflight` and the `return`, or the rejection.
  abbrev pub resume_task : (task : ℕ) → Flight → Auth → Auth
  resume_task c (landed r now) s = record s {
    cached = some (token_of r now);
    tasks = set_at c (served (header (token_of r now))) s.tasks;
  }
  resume_task c crashed s = record s { tasks = set_at c rejected s.tasks }
  resume_task c unused s = s
  resume_task c flying s = s

  -- What the event loop may run next.
  pub data Step (s : Auth) : Auth → Type 0 where
    calls : (c now : ℕ) → s.tasks c ≡ ready → Step s (get_auth_headers c now s)
    lands : (n now : ℕ) (r : TokenResponse) → s.flights n ≡ flying → Step s (land_refresh n r now s)
    crashes : (n : ℕ) → s.flights n ≡ flying → Step s (crash_refresh n s)
    resumes : (c n : ℕ) → s.tasks c ≡ awaiting n → Step s (resume_task c (s.flights n) s)

  pub data Reach : Auth → Type 0 where
    start : Reach new_auth
    step : {s s' : Auth} → Reach s → Step s s' → Reach s'
