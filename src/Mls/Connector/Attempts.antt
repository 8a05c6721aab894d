-- ===== src/Mls/Connector/Attempts.antt =====
-- The vendor's answers to one request of executeWithRetry, and what comes of them.
use mathlib.Core.Path.{subst}
use frontstead_kit.Prelude.{
  ℕ, zero, suc, ◌+◌, ◌≤◌, ◌<◌, ◌-◌, ◌*◌, ◌^◌, [], ◌≡◌, refl, sym, ap, ◌∙◌, String, Option, none,
  some, List, arith, Bool-cases, true, false, inl, inr,
}
use frontstead_kit.Mls.Value.{Record}
use frontstead_kit.Mls.Connector.{
  Response, answered, refused, Tried, undefined, is_client_error, after_delay, attempt_from,
  execute_with_retry,
}

-- A status of 400 to 499.
abbrev pub IsClientError : Option ℕ → Type 0
IsClientError status = (code : ℕ) × (status ≡ some code) × (400 ≤ code) × (code < 500)

client_error_lem : (status : Option ℕ) → is_client_error status ≡ true → IsClientError status
client_error_lem none h = absurd (ground (arith, h))
client_error_lem (some code) h = (code, refl, ground (arith, h), ground (arith, h))

client_error_holds : (status : Option ℕ) → IsClientError status → is_client_error status ≡ true
client_error_holds status (code, e, low, high) = rw e (ground (arith, low, high))

transient_lem : (status : Option ℕ) → is_client_error status ≡ false → ¬ IsClientError status
transient_lem status h c = ground (arith, h, client_error_holds status c)

transient_holds : (status : Option ℕ) → ¬ IsClientError status → is_client_error status ≡ false
transient_holds status h = elim (Bool-cases (is_client_error status)) [
  | inl yes_ ↦ absurd (h (client_error_lem status yes_))
  | inr no_ ↦ no_
]

module _ (respond : ℕ → String → Response) (base max_retries : ℕ) where
  -- With so many attempts left, requests made before and the last failure, the vendor's answers to a
  -- path come to a response after the n-th request in all: an answer or a client error is final, any
  -- other failure is tried again, and the last one stays when no attempt is left.
  pub data Attempts (url : String) : ℕ → ℕ → Response → Response → ℕ → Type 0 where
    exhausted : {sent : ℕ} {failure : Response} → Attempts url zero sent failure failure sent
    answers :
        {left sent : ℕ} {failure : Response} (records : List Record) (link : Option String)
        → respond sent url ≡ answered records link
        → Attempts url (suc left) sent failure (answered records link) (sent + 1)
    rejects :
        {left sent : ℕ} {failure : Response} (status : Option ℕ) (message : String)
        → respond sent url ≡ refused status message
        → IsClientError status
        → Attempts url (suc left) sent failure (refused status message) (sent + 1)
    retries :
        {left sent n : ℕ} {failure r : Response} (status : Option ℕ) (message : String)
        → respond sent url ≡ refused status message
        → ¬ IsClientError status
        → Attempts url left (sent + 1) (refused status message) r n
        → Attempts url (suc left) sent failure r n

  abbrev pub tried : (left attempt sent : ℕ) → String → Response → Tried
  tried left attempt sent url failure = attempt_from respond base left attempt sent url failure

  abbrev AreTried : ℕ → ℕ → ℕ → String → Response → Response → ℕ → Type 0
  AreTried left attempt sent url failure r n =
      (Tried.response (tried left attempt sent url failure) ≡ r)
      × (Tried.sent (tried left attempt sent url failure) ≡ n)

  delayed_response :
      (left backoff : ℕ) (t : Tried)
      → Tried.response (after_delay left backoff t) ≡ Tried.response t
  delayed_response zero backoff t = refl
  delayed_response (suc left) backoff t = refl

  delayed_sent :
      (left backoff : ℕ) (t : Tried) → Tried.sent (after_delay left backoff t) ≡ Tried.sent t
  delayed_sent zero backoff t = refl
  delayed_sent (suc left) backoff t = refl

  answer_step :
      (left attempt sent : ℕ) (url : String) (failure : Response) (records : List Record)
      (link : Option String)
      → respond sent url ≡ answered records link
      → tried (suc left) attempt sent url failure
        ≡ record { response = answered records link; sent = sent + 1; delays = [] }
  unfolding attempt_from
  answer_step left attempt sent url failure records link e = ground (arith, e)

  reject_step :
      (left attempt sent : ℕ) (url : String) (failure : Response) (status : Option ℕ)
      (message : String)
      → respond sent url ≡ refused status message
      → is_client_error status ≡ true
      → tried (suc left) attempt sent url failure
        ≡ record { response = refused status message; sent = sent + 1; delays = [] }
  unfolding attempt_from
  reject_step left attempt sent url failure status message e h = ground (arith, e, h)

  retry_step :
      (left attempt sent : ℕ) (url : String) (failure : Response) (status : Option ℕ)
      (message : String)
      → respond sent url ≡ refused status message
      → is_client_error status ≡ false
      → tried (suc left) attempt sent url failure
        ≡ after_delay left
            (base * 2 ^ (attempt - 1))
            (tried left (attempt + 1) (sent + 1) url (refused status message))
  unfolding attempt_from
  retry_step left attempt sent url failure status message e h = ground (arith, e, h)

  pub attempts_meet :
      (left attempt : ℕ) {sent n : ℕ} {url : String} {failure r : Response}
      → Attempts url left sent failure r n
      → AreTried left attempt sent url failure r n
  unfolding attempt_from
  attempts_meet zero attempt exhausted = (refl, refl)
  attempts_meet (suc left) attempt {sent} {n} {url} {failure} {r} (answers records link e) =
      let same = answer_step left attempt sent url failure records link e in
      (ap Tried.response same, ap Tried.sent same)
  attempts_meet (suc left) attempt {sent} {n} {url} {failure} {r} (rejects status message e c) =
      let same =
        reject_step left attempt sent url failure status message e (client_error_holds status c) in
      (ap Tried.response same, ap Tried.sent same)
  attempts_meet (suc left) attempt {sent} {n} {url} {failure} {r}
        (retries status message e c rest) =
      let same =
        retry_step left attempt sent url failure status message e (transient_holds status c) in
      let (response, count) = attempts_meet left (attempt + 1) rest in
      (
        ap Tried.response same ∙ delayed_response left _ _ ∙ response,
        ap Tried.sent same ∙ delayed_sent left _ _ ∙ count,
      )

  attempts_made :
      (left attempt sent : ℕ) (url : String) (failure : Response)
      → Attempts url left sent failure
          (Tried.response (tried left attempt sent url failure))
          (Tried.sent (tried left attempt sent url failure))
  unfolding attempt_from
  attempts_made zero attempt sent url failure = exhausted
  attempts_made (suc left) attempt sent url failure =
      by_response (attempts_made left (attempt + 1) (sent + 1) url) (respond sent url) refl
    where
      by_response :
          ((f : Response)
            → Attempts url left
                (sent + 1)
                f
                (Tried.response (tried left (attempt + 1) (sent + 1) url f))
                (Tried.sent (tried left (attempt + 1) (sent + 1) url f)))
          → (r : Response) → respond sent url ≡ r
          → Attempts url
              (suc left)
              sent
              failure
              (Tried.response (tried (suc left) attempt sent url failure))
              (Tried.sent (tried (suc left) attempt sent url failure))
      by_response later (answered records link) e =
          subst (λ t. Attempts url (suc left) sent failure (Tried.response t) (Tried.sent t))
            (sym (answer_step left attempt sent url failure records link e))
            (answers records link e)
      by_response later (refused status message) e = elim (Bool-cases (is_client_error status)) [
        | inl final ↦
            subst (λ t. Attempts url (suc left) sent failure (Tried.response t) (Tried.sent t))
              (sym (reject_step left attempt sent url failure status message e final))
              (rejects status message e (client_error_lem status final))
        | inr again ↦
            let t = tried left (attempt + 1) (sent + 1) url (refused status message) in
            let backoff = base * 2 ^ (attempt - 1) in
            subst (λ x. Attempts url (suc left) sent failure (Tried.response x) (Tried.sent x))
              (sym (retry_step left attempt sent url failure status message e again))
              (retries status message e (transient_lem status again) (
                subst
                  (λ n.
                    Attempts url left (sent + 1) (refused status message)
                      (Tried.response (after_delay left backoff t)) n)
                  (sym (delayed_sent left backoff t))
                  (subst
                    (λ r. Attempts url left (sent + 1) (refused status message) r (Tried.sent t))
                    (sym (delayed_response left backoff t)) (later (refused status message)))))
      ]

  pub made :
      (sent : ℕ) (url : String) (r : Response)
      → Tried.response (execute_with_retry respond base max_retries sent url) ≡ r
      → Attempts url max_retries sent undefined r
          (Tried.sent (execute_with_retry respond base max_retries sent url))
  unfolding execute_with_retry
  made sent url r e =
      subst
        (λ x.
          Attempts url max_retries sent undefined x
            (Tried.sent (tried max_retries 1 sent url undefined)))
        e (attempts_made max_retries 1 sent url undefined)
