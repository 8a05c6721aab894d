-- ===== src/Mls/Connector/Retries.antt =====
-- When a request is repeated, and when not.
use frontstead_kit.Prelude.{
  ℕ, zero, suc, ◌+◌, ◌-◌, ◌*◌, ◌^◌, ◌≤◌, ◌<◌, ◌≡◌, refl, sym, ◌∙◌, String, Bool, true, false, not,
  List, [], ◌∷◌, arith,
}
use frontstead_kit.Mls.Connector.{
  Response, answered, refused, is_client_error, after_delay, attempt_from, execute_with_retry,
  undefined,
}

-- A failure that is worth another attempt.
abbrev pub is_transient : Response → Bool
is_transient (answered records link) = false
is_transient (refused status message) = not (is_client_error status)

-- The delays after `n` failed attempts, from the attempt `attempt` on.
abbrev pub backoffs : (base attempt n : ℕ) → List ℕ
backoffs base attempt zero = []
backoffs base attempt (suc n) = base * 2 ^ (attempt - 1) ∷ backoffs base (attempt + 1) n

module _ (respond : ℕ → String → Response) (base : ℕ) where
  -- `n` transient failures from the request number `sent` on.
  abbrev pub Fails : (n sent : ℕ) → String → Type 0
  Fails zero sent url = Unit
  Fails (suc n) sent url = (is_transient (respond sent url) ≡ true) × Fails n (sent + 1) url

  step_transient :
      (left attempt sent : ℕ) (url : String) (last_error : Response)
      → is_transient (respond sent url) ≡ true
      → attempt_from respond base (suc left) attempt sent url last_error
        ≡ after_delay left
            (base * 2 ^ (attempt - 1))
            (attempt_from respond base left (attempt + 1) (sent + 1) url (respond sent url))
  unfolding attempt_from
  step_transient left attempt sent url last_error h = ground arith

  step_decisive :
      (left attempt sent : ℕ) (url : String) (last_error : Response)
      → is_transient (respond sent url) ≡ false
      → attempt_from respond base (suc left) attempt sent url last_error
        ≡ record { response = respond sent url; sent = sent + 1; delays = [] }
  unfolding attempt_from
  step_decisive left attempt sent url last_error h = ground arith

  decisive_from :
      (n left attempt sent k : ℕ) (url : String) (last_error : Response)
      → n < left
      → k ≡ sent + n
      → Fails n sent url
      → is_transient (respond k url) ≡ false
      → attempt_from respond base left attempt sent url last_error
        ≡ record { response = respond k url; sent = k + 1; delays = backoffs base attempt n }
  decisive_from n zero attempt sent k url last_error less e fs h = absurd (omega arith)
  decisive_from zero (suc left) attempt sent k url last_error less e fs h =
      let same : k ≡ sent = omega arith in
      rw same (step_decisive left attempt sent url last_error (rw (sym same) h))
  decisive_from (suc n) (suc left) attempt sent k url last_error less e (f, fs) h =
      step_transient left attempt sent url last_error f
      ∙ rw
          (decisive_from n left (attempt + 1) (sent + 1) k url (respond sent url) (omega arith)
            (omega arith) fs h)
          (waits left (omega arith))
    where
      waits :
          (l : ℕ)
          → 1 ≤ l
          → after_delay l (base * 2 ^ (attempt - 1)) (record {
            response = respond k url;
            sent = k + 1;
            delays = backoffs base (attempt + 1) n;
          })
            ≡ record {
              response = respond k url;
              sent = k + 1;
              delays = backoffs base attempt (suc n);
            }
      waits zero l = absurd (omega arith)
      waits (suc m) l = refl

  exhausted_from :
      (left attempt sent : ℕ) (url : String) (last_error : Response)
      → Fails (suc left) sent url
      → attempt_from respond base (suc left) attempt sent url last_error ≡ record {
        response = respond (sent + left) url;
        sent = sent + left + 1;
        delays = backoffs base attempt left;
      }
  unfolding attempt_from
  exhausted_from zero attempt sent url last_error (f, fs) =
      let same : sent + 0 ≡ sent = omega arith in
      step_transient 0 attempt sent url last_error f ∙ rw same refl
  exhausted_from (suc left) attempt sent url last_error (f, fs) =
      let same : sent + suc left ≡ sent + 1 + left = omega arith in
      step_transient (suc left) attempt sent url last_error f
      ∙ rw (exhausted_from left (attempt + 1) (sent + 1) url (respond sent url) fs, same) refl

  -- After `n` transient failures, fewer than the attempts allowed, the first other answer, a page or
  -- a refusal by 4xx, is what the request returns or throws, after `n` delays that double.
  pub execute_with_retry_decisive :
      (n max_retries sent : ℕ) (url : String)
      → n < max_retries
      → Fails n sent url
      → is_transient (respond (sent + n) url) ≡ false
      → execute_with_retry respond base max_retries sent url ≡ record {
        response = respond (sent + n) url;
        sent = sent + n + 1;
        delays = backoffs base 1 n;
      }
  unfolding execute_with_retry
  execute_with_retry_decisive n max_retries sent url less fs h =
      decisive_from n max_retries 1 sent (sent + n) url undefined less refl fs h

  -- Where every attempt that is allowed Fails transiently, the last failure is thrown: all attempts
  -- were made, with a doubling delay between each two and none after the last.
  pub execute_with_retry_exhausted :
      (left sent : ℕ) (url : String)
      → Fails (suc left) sent url
      → execute_with_retry respond base (suc left) sent url ≡ record {
        response = respond (sent + left) url;
        sent = sent + left + 1;
        delays = backoffs base 1 left;
      }
  unfolding execute_with_retry
  execute_with_retry_exhausted left sent url fs = exhausted_from left 1 sent url undefined fs
