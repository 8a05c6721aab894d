-- ===== src/Delivery/Retries.antt =====
-- A row whose sends keep failing: the schedule of its retries and their end.
use native.Mathlib.Decide.{dec_le}
use frontstead_kit.Prelude.{
  ℕ, zero, suc, ◌+◌, ◌*◌, ◌≤◌, ◌<◌, ◌≡◌, ◌⊎◌, refl, ◌∙◌, ◌-◌, List, [], ◌∷◌, arith, length, min,
  true, if◌then◌else◌,
}
use frontstead_kit.Delivery.{
  Delivery, Envelope, Sent, threw, pending, retry, dead_letter, claimable, lock, envelope, settle,
  retry_delay,
}

abbrev pub longest_delay : ℕ
longest_delay = 2 * 60 * 60_000

retry_delay_bounds : (n : ℕ) → (60_000 ≤ retry_delay n) × (retry_delay n ≤ longest_delay)
retry_delay_bounds zero = omega arith
retry_delay_bounds (suc zero) = omega arith
retry_delay_bounds (suc (suc zero)) = omega arith
retry_delay_bounds (suc (suc (suc n))) = omega arith

-- The row after a run at each of these instants, for a row that is a candidate each time.
pub after_runs : (Envelope → Sent) → List ℕ → Delivery → Delivery
after_runs sender [] d = d
after_runs sender (now ∷ nows) d =
    after_runs sender nows
      (if claimable now d then (settle now now (sender (envelope d)) (lock now d)).0 else d)

-- Instants that leave the longest delay between two runs, from `t` on.
abbrev pub Spaced : ℕ → List ℕ → Type 0
Spaced t [] = Unit
Spaced t (now ∷ nows) = (t ≤ now) × Spaced (now + longest_delay) nows

Spaced-le : (t u : ℕ) (nows : List ℕ) → u ≤ t → Spaced t nows → Spaced u nows
Spaced-le t u [] h s = tt
Spaced-le t u (now ∷ nows) h (le, s) = (omega arith, s)

pub record IsWaiting (d : Delivery) : Type 0 where
  pub state : (d.state ≡ pending) ⊎ (d.state ≡ retry)
  pub left : d.attempts < d.max_attempts

claim_due :
    (now : ℕ) (d : Delivery) → IsWaiting d → d.next_attempt_at ≤ now → claimable now d ≡ true
unfolding claimable
claim_due now d w due = ground arith

fail_last :
    (now at : ℕ) (message : List ℕ) (d : Delivery)
    → d.max_attempts ≤ d.attempts + 1
    → let d' = (settle now at (threw message) (lock now d)).0 in
      (d'.state ≡ dead_letter) × (d'.attempts ≡ d.attempts + 1)
unfolding settle lock
fail_last now at message d h = ground arith

fail_again :
    (now at : ℕ) (message : List ℕ) (d : Delivery)
    → d.attempts + 1 < d.max_attempts
    → let d' = (settle now at (threw message) (lock now d)).0 in
      IsWaiting d'
      × (d'.attempts ≡ d.attempts + 1)
      × (d'.max_attempts ≡ d.max_attempts)
      × (d'.next_attempt_at ≤ now + longest_delay)
unfolding settle lock
fail_again now at message d h = ground (arith, retry_delay_bounds (min (d.attempts + 1 - 1) 3))

module _ (sender : Envelope → Sent) where
  after_runs_dead :
      (nows : List ℕ) (d : Delivery) → d.state ≡ dead_letter → after_runs sender nows d ≡ d
  unfolding after_runs claimable
  after_runs_dead [] d h = refl
  after_runs_dead (now ∷ nows) d h = ground (arith, after_runs_dead nows d h)

  module _ (message : List ℕ) (fails : (e : Envelope) → sender e ≡ threw message) where
    after_runs_due :
        (now : ℕ) (nows : List ℕ) (d : Delivery)
        → claimable now d ≡ true
        → after_runs sender (now ∷ nows) d
          ≡ after_runs sender nows (settle now now (threw message) (lock now d)).0
    unfolding after_runs
    after_runs_due now nows d c = rw (c, fails (envelope d))

    -- A waiting row whose every send throws, in runs that each leave the longest delay after the
    -- one before, ends as a dead letter with exactly `maxAttempts` attempts, once there are as many
    -- runs as it had attempts left.
    pub failing_row_dies :
        (nows : List ℕ) (d : Delivery)
        → IsWaiting d
        → Spaced d.next_attempt_at nows
        → d.max_attempts ≤ d.attempts + length nows
        → ((after_runs sender nows d).state ≡ dead_letter)
          × ((after_runs sender nows d).attempts ≡ d.max_attempts)
    failing_row_dies [] d w s enough = absurd (omega (arith, w.left))
    failing_row_dies (now ∷ nows) d w (due, later) enough =
        let next : Delivery = (settle now now (threw message) (lock now d)).0 in
        rw (after_runs_due now nows d (claim_due now d w due))
          (elim (dec_le d.max_attempts (d.attempts + 1)) [
            | yes last ↦
                let (dead, used) = fail_last now now message d last in
                rw (after_runs_dead nows next dead) (dead, omega (arith, used, w.left))
            | no more ↦
                let (waits, used, same, soon) = fail_again now now message d (omega arith) in
                let spaced = Spaced-le (now + longest_delay) next.next_attempt_at nows soon later in
                let rest = failing_row_dies nows next waits spaced (omega arith) in
                (rest.0, rest.1 ∙ same)
          ])
