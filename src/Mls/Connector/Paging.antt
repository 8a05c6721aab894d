-- ===== src/Mls/Connector/Paging.antt =====
-- The pages of fetchResource and the answers and links of the vendor.
use mathlib.Core.Path.{subst}
use frontstead_kit.Prelude.{
  ℕ, zero, suc, ◌≤◌, ◌≡◌, ◌≢◌, refl, sym, ap, or_else, ◌∙◌, String, Option, none, some, List, arith,
  Option-cases, Bool-cases, inl, inr, str_eq, eq_iff,
}
use frontstead_kit.Mls.Metrics.{Feed, page, finished, broken}
use frontstead_kit.Mls.Value.{Record}
use frontstead_kit.Mls.Connector.{
  Response, answered, refused, Tried, undefined, execute_with_retry, next_url, after_page,
  fetch_from,
}
pub use frontstead_kit.Mls.Connector.Attempts.{
  IsClientError, Attempts, exhausted, answers, rejects, retries,
}
use frontstead_kit.Mls.Connector.Attempts.{attempts_meet, made}

-- The requests that a feed takes.
abbrev pub requests : Feed → ℕ
requests finished = 0
requests (broken message) = 1
requests (page records feed) = suc (requests feed)

-- What a link leads to: no link, or an empty one, to no page, and any other to its own.
pub data Leads : Option String → Option String → Type 0 where
  nowhere : Leads none none
  empty : Leads (some "") none
  there : (url : String) → url ≢ "" → Leads (some url) (some url)

Leads-next :
    (respond : ℕ → String → Response) (base : ℕ) (link next : Option String)
    → Leads link next
    → next_url respond base link ≡ next
Leads-next respond base _ _ nowhere = refl
Leads-next respond base _ _ empty = refl
Leads-next respond base _ _ (there url filled) = ground (arith, eq_iff url "", filled)

next-Leads :
    (respond : ℕ → String → Response) (base : ℕ) (link : Option String)
    → Leads link (next_url respond base link)
next-Leads respond base none = nowhere
next-Leads respond base (some url) = elim (Bool-cases (str_eq url "")) [
  | inl blank ↦
      subst (λ u. Leads (some u) (next_url respond base (some u))) (sym ((eq_iff url "").0 blank))
        empty
  | inr filled ↦
      subst (λ o. Leads (some url) o)
        (sym (
          Leads-next respond base (some url) (some url)
            (there url (λ e. ground (arith, filled, e, eq_iff url "")))))
        (there url (λ e. ground (arith, filled, e, eq_iff url "")))
]

module _ (respond : ℕ → String → Response) (base max_retries : ℕ) where
  -- From a path on, and with the requests made respond base max_retries before, the vendor's answers make this feed: a page
  -- whose link leads nowhere ends it, a page with a link goes on from there, and a failure breaks it.
  pub data Serves : ℕ → String → Feed → Type 0 where
    ends :
        {sent n : ℕ} {url : String} (records : List Record) (link : Option String)
        → Attempts respond base max_retries url max_retries sent undefined (answered records link) n
        → Leads link none
        → Serves sent url (page records finished)
    more :
        {sent n : ℕ} {url : String} (records : List Record) (link : Option String) (next : String)
        (feed : Feed)
        → Attempts respond base max_retries url max_retries sent undefined (answered records link) n
        → Leads link (some next)
        → Serves n next feed
        → Serves sent url (page records feed)
    fails :
        {sent n : ℕ} {url : String} (status : Option ℕ) (message : String)
        → Attempts respond base max_retries url max_retries sent undefined
            (refused status message)
            n
        → Serves sent url (broken message)

  -- Whatever feed the vendor's answers make, the connector yields it, given fuel for its requests.
  pub fetch_from-Serves :
      (fuel sent : ℕ) (url : String) (feed : Feed)
      → Serves sent url feed
      → requests feed ≤ fuel
      → fetch_from respond base fuel max_retries sent url ≡ some feed
  unfolding fetch_from execute_with_retry
  fetch_from-Serves zero sent url feed (ends records link a l) enough = absurd (omega arith)
  fetch_from-Serves zero sent url feed (more records link next rest a l s) enough =
      absurd (omega arith)
  fetch_from-Serves zero sent url feed (fails status message a) enough = absurd (omega arith)
  fetch_from-Serves (suc fuel) sent url feed (ends records link a l) enough =
      rw
        (
          fetch_from,
          (attempts_meet respond base max_retries max_retries 1 a).0,
          Leads-next respond base link none l,
        )
        refl
  fetch_from-Serves (suc fuel) sent url feed (more records link next rest a l s) enough =
      let (response, count) = attempts_meet respond base max_retries max_retries 1 a in
      rw
        (
          fetch_from,
          response,
          Leads-next respond base link (some next) l,
          count,
          fetch_from-Serves fuel _ next rest s (omega arith),
        )
        refl
  fetch_from-Serves (suc fuel) sent url feed (fails status message a) enough =
      rw (fetch_from, (attempts_meet respond base max_retries max_retries 1 a).0) refl

  leads : (link next : Option String) → next_url respond base link ≡ next → Leads link next
  leads link next e = subst (λ o. Leads link o) e (next-Leads respond base link)

  -- A feed that the connector yields is one that the vendor's answers make.
  pub fetch_from_sound :
      (fuel sent : ℕ) (url : String) (feed : Feed)
      → fetch_from respond base fuel max_retries sent url ≡ some feed
      → Serves sent url feed
  unfolding fetch_from
  fetch_from_sound zero sent url feed h = absurd (cc h)
  fetch_from_sound (suc fuel) sent url feed h =
      from_response (fetch_from_sound fuel)
        (Tried.response (execute_with_retry respond base max_retries sent url)) refl h
    where
      from_link :
          ((n : ℕ) (u : String) (f : Feed)
            → fetch_from respond base fuel max_retries n u ≡ some f
            → Serves n u f)
          → (records : List Record) (link next : Option String)
          → Tried.response (execute_with_retry respond base max_retries sent url)
            ≡ answered records link
          → next_url respond base link ≡ next
          → (elim next [
            | none ↦ some (page records finished)
            | some u ↦ after_page respond base records (
                fetch_from respond base fuel max_retries
                  (Tried.sent (execute_with_retry respond base max_retries sent url))
                  u)
          ])
            ≡ some feed
          → Serves sent url feed
      from_link deeper records link none e end_ h =
          subst (λ f. Serves sent url f) (ap (λ o. or_else o feed) h)
            (ends records link (made respond base max_retries sent url (answered records link) e)
              (leads link none end_))
      from_link deeper records link (some u) e go h =
          let answer =
            fetch_from respond base fuel max_retries
              (Tried.sent (execute_with_retry respond base max_retries sent url)) u in
          elim (Option-cases answer) [
            | inl out ↦ absurd (ground arith)
            | inr (rest, found) ↦
                subst (λ f. Serves sent url f)
                  (ap (λ o. or_else (after_page respond base records o) feed) (sym found)
                    ∙ ap (λ o. or_else o feed) h)
                  (more records link u rest
                    (made respond base max_retries sent url (answered records link) e)
                    (leads link (some u) go) (deeper _ u rest found))
          ]

      from_response :
          ((n : ℕ) (u : String) (f : Feed)
            → fetch_from respond base fuel max_retries n u ≡ some f
            → Serves n u f)
          → (r : Response)
          → Tried.response (execute_with_retry respond base max_retries sent url) ≡ r
          → (elim r [
            | refused status message ↦ some (broken message)
            | answered records link ↦ elim (next_url respond base link) [
              | none ↦ some (page records finished)
              | some u ↦ after_page respond base records (
                  fetch_from respond base fuel max_retries
                    (Tried.sent (execute_with_retry respond base max_retries sent url))
                    u)
            ]
          ])
            ≡ some feed
          → Serves sent url feed
      from_response deeper (refused status message) e h =
          subst (λ f. Serves sent url f) (ap (λ o. or_else o feed) h)
            (fails status message
              (made respond base max_retries sent url (refused status message) e))
      from_response deeper (answered records link) e h =
          from_link deeper records link (next_url respond base link) e refl h
