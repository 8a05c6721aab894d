-- ===== src/Mls/Auth/Flights.antt =====
-- The refreshes of the token in any interleaving of the calls.
use mathlib.Core.Path.{subst}
use frontstead_kit.Prelude.{
  ℕ, ◌≤◌, ◌≡◌, ◌≢◌, inl, inr, refl, ap, sym, ◌∙◌, String, Option, none, some, ◌==◌, arith,
  Bool-cases,
}
use frontstead_kit.Mls.Auth.{
  CachedToken, Flight, unused, flying, landed, crashed, Task, awaiting, served, rejected, Auth,
  new_auth, set_at, token_of, is_stale, header, header_of, await_refresh, get_auth_headers,
  resume_task, Step, calls, lands, crashes, resumes, Reach, start, step,
}
pub use frontstead_kit.Mls.Auth.Issued.{IsIssued}
use frontstead_kit.Mls.Auth.Issued.{
  equal, at_set, IsIssued-Stays, set-Stays, unused_answer, flying_answer, headers_stay,
}

module _ (buffer : Option ℕ) where
  pub record IsSingle (s : Auth) : Type 0 where
    pub in_flight : (n : ℕ) → s.flights n ≡ flying → s.inflight ≡ some n
    pub flies : (n : ℕ) → s.inflight ≡ some n → s.flights n ≡ flying
    pub begun : (n : ℕ) → s.started ≤ n → s.flights n ≡ unused
    pub awaited : (c n : ℕ) → s.tasks c ≡ awaiting n → s.flights n ≢ unused
    pub issued : (t : CachedToken) → s.cached ≡ some t → IsIssued buffer s.flights t
    pub headers :
        (c : ℕ) (h : String)
        → s.tasks c ≡ served h
        → (t : CachedToken) × (h ≡ header buffer t) × IsIssued buffer s.flights t

  await-IsSingle :
      (s : Auth) (c : ℕ) (o : Option ℕ)
      → s.inflight ≡ o
      → IsSingle s
      → IsSingle (await_refresh buffer c o s)
  await-IsSingle s c none free i =
      let stays = set-Stays buffer s.flights s.started flying (λ r now.
        unused_answer buffer (s.flights s.started) r now (i.begun s.started (omega arith))) in
      record {
        in_flight = λ n e. ground (arith, i.in_flight n, free, e);
        flies = λ n e. ground (arith, e);
        begun = λ n h. ground (arith, i.begun n, h);
        awaited = λ d n e f. ground (arith, i.awaited d n, e, f);
        issued = λ t e.
            IsIssued-Stays buffer s.flights (set_at s.started flying s.flights) t stays
              (i.issued t e);
        headers = λ d h e.
            headers_stay buffer s.flights (set_at s.started flying s.flights) h stays
              (i.headers d h (ground (arith, e)));
      }
  await-IsSingle s c (some n) busy i = record {
    in_flight = i.in_flight;
    flies = i.flies;
    begun = i.begun;
    awaited = λ d m e f. ground (arith, i.awaited d m, i.flies n busy, e, f);
    issued = i.issued;
    headers = λ d h e. i.headers d h (ground (arith, e));
  }

  pub served_header : (g h : String) → served g ≡ served h → h ≡ g
  served_header g h e = cc

  cached_header :
      (s : Auth) (o : Option CachedToken) (h : String)
      → s.cached ≡ o
      → IsSingle s
      → header_of buffer o ≡ served h
      → (t : CachedToken) × (h ≡ header buffer t) × IsIssued buffer s.flights t
  cached_header s none h e i f = absurd (ground (arith, f))
  cached_header s (some t) h e i f = (t, served_header (header buffer t) h f, i.issued t e)

  some_same : (t u : CachedToken) → some t ≡ some u → t ≡ u
  some_same t u e = cc

  both : (a : Flight) → a ≡ unused → a ≢ flying
  both a e f = ground (arith, e, f)

  not_other :
      (s : Auth) (n k : ℕ) (a : Flight)
      → a ≢ flying
      → s.inflight ≡ some n
      → s.inflight ≡ some k
      → set_at n a s.flights k ≢ flying
  not_other s n k a f e g h = ground (arith, f, e, g, h)

  still_unused :
      (s : Auth) (n k : ℕ) (a : Flight)
      → s.flights k ≡ unused
      → s.flights n ≡ flying
      → set_at n a s.flights k ≡ unused
  still_unused s n k a e f = elim (Bool-cases (n == k)) [
    | inl same ↦ absurd (both (s.flights k) e (ap s.flights (sym (equal n k same)) ∙ f))
    | inr differs ↦ rw differs e
  ]

  -- A task that ends.
  retask-IsSingle :
      (s : Auth) (c : ℕ) (a : Task)
      → ((n : ℕ) → a ≢ awaiting n)
      → ((h : String)
          → a ≡ served h
          → (t : CachedToken) × (h ≡ header buffer t) × IsIssued buffer s.flights t)
      → IsSingle s
      → IsSingle (record s { tasks = set_at c a s.tasks })
  retask-IsSingle s c a ended issued i = record {
    in_flight = i.in_flight;
    flies = i.flies;
    begun = i.begun;
    awaited = λ d n e. elim (at_set s.tasks c d a (awaiting n) e) [
      | inl (same, bad) ↦ absurd (ended n bad)
      | inr old ↦ i.awaited d n old
    ];
    issued = i.issued;
    headers = λ d h e. elim (at_set s.tasks c d a (served h) e) [
      | inl (same, new) ↦ issued h new
      | inr old ↦ i.headers d h old
    ];
  }

  recache-IsSingle :
      (s : Auth) (t : CachedToken)
      → IsIssued buffer s.flights t
      → IsSingle s
      → IsSingle (record s { cached = some t })
  recache-IsSingle s t issued i = record {
    in_flight = i.in_flight;
    flies = i.flies;
    begun = i.begun;
    awaited = i.awaited;
    issued = λ u e. subst (IsIssued buffer s.flights) (some_same t u e) issued;
    headers = i.headers;
  }

  header_ends : (o : Option CachedToken) (n : ℕ) → header_of buffer o ≢ awaiting n
  header_ends none n e = ground (arith, e)
  header_ends (some t) n e = ground (arith, e)

  call-IsSingle : (c now : ℕ) (s : Auth) → IsSingle s → IsSingle (get_auth_headers buffer c now s)
  unfolding get_auth_headers
  call-IsSingle c now s i = elim (Bool-cases (is_stale buffer s.cached now)) [
    | inl stale ↦ rw (get_auth_headers, stale) (await-IsSingle s c s.inflight refl i)
    | inr fresh ↦
        rw (get_auth_headers, fresh)
          (retask-IsSingle s c (header_of buffer s.cached) (header_ends s.cached)
            (λ h e. cached_header s s.cached h refl i e) i)
  ]

  -- The only refresh in flight settles.
  settled-IsSingle :
      (s : Auth) (n : ℕ) (a : Flight)
      → s.flights n ≡ flying
      → a ≢ flying
      → a ≢ unused
      → IsSingle s
      → IsSingle (record s { inflight = none; flights = set_at n a s.flights })
  settled-IsSingle s n a e f u i =
      let stays =
        set-Stays buffer s.flights n a (λ r now. flying_answer buffer (s.flights n) r now e) in
      record {
        in_flight = λ k g. absurd (elim (at_set s.flights n k a flying g) [
          | inl (same, bad) ↦ f bad
          | inr old ↦ not_other s n k a f (i.in_flight n e) (i.in_flight k old) g
        ]);
        flies = λ k g. ground (arith, g);
        begun = λ k h. still_unused s n k a (i.begun k h) e;
        awaited = λ c k g h. elim (at_set s.flights n k a unused h) [
          | inl (same, bad) ↦ u bad
          | inr old ↦ i.awaited c k g old
        ];
        issued =
            λ t g. IsIssued-Stays buffer s.flights (set_at n a s.flights) t stays (i.issued t g);
        headers =
            λ c h g. headers_stay buffer s.flights (set_at n a s.flights) h stays (i.headers c h g);
      }

  resume-IsSingle :
      (s : Auth) (c n : ℕ) (a : Flight)
      → s.flights n ≡ a
      → IsSingle s
      → IsSingle (resume_task buffer c a s)
  resume-IsSingle s c n unused e i = i
  resume-IsSingle s c n flying e i = i
  resume-IsSingle s c n crashed e i =
      retask-IsSingle s c rejected (λ k f. ground (arith, f)) (λ h f. absurd (ground (arith, f))) i
  resume-IsSingle s c n (landed r now) e i =
      let t = token_of buffer r now in
      let issued : IsIssued buffer s.flights t = record {
        flight = n;
        response = r;
        answered_at = now;
        answered = e;
        token = refl;
      } in
      recache-IsSingle (record s { tasks = set_at c (served (header buffer t)) s.tasks }) t issued
        (retask-IsSingle s c (served (header buffer t)) (λ k f. ground (arith, f))
          (λ h f. (t, served_header (header buffer t) h f, issued)) i)

  Step-IsSingle : (s s' : Auth) → Step buffer s s' → IsSingle s → IsSingle s'
  Step-IsSingle s _ (calls c now e) i = call-IsSingle c now s i
  Step-IsSingle s _ (lands n now r e) i =
      settled-IsSingle s n (landed r now) e (ground arith) (ground arith) i
  Step-IsSingle s _ (crashes n e) i = settled-IsSingle s n crashed e (ground arith) (ground arith) i
  Step-IsSingle s _ (resumes c n e) i = resume-IsSingle s c n (s.flights n) refl i

  new-IsSingle : IsSingle new_auth
  new-IsSingle = record {
    in_flight = λ n e. ground (arith, e);
    flies = λ n e. ground (arith, e);
    begun = λ n h. refl;
    awaited = λ c n e f. ground (arith, e);
    issued = λ t e. absurd (ground (arith, e));
    headers = λ c h e. absurd (ground (arith, e));
  }

  -- Whatever calls interleave, and whether the endpoint answers or fails: the refresh in flight is
  -- the only one that waits for the endpoint, no task awaits a refresh that was never begun, and the
  -- cached token and every header that was served come from an answer of the endpoint.
  pub Reach-IsSingle : (s : Auth) → Reach buffer s → IsSingle s
  Reach-IsSingle _ start = new-IsSingle
  Reach-IsSingle s' (step {s} reach next) = Step-IsSingle s s' next (Reach-IsSingle s reach)
