-- ===== src/Delivery/Invariant.antt =====
-- What holds of each row of the outbox, and what one attempt does to it.
use frontstead_kit.Prelude.{ℕ, ◌≤◌, ◌<◌, ◌≡◌, ◌⊎◌, true, false, none, arith, is_some}
use frontstead_kit.Delivery.{
  pending, processing, retry, delivered, dead_letter, Delivery, Sent, answered, threw, claimable,
  lock, settle,
}

-- A row that may still be sent has an attempt left; a finished row says when it was finished and
-- is not locked; a dead letter has used all its attempts.
pub record IsConsistent (d : Delivery) : Type 0 where
  pub waiting : (d.state ≡ pending) ⊎ (d.state ≡ retry) → d.attempts < d.max_attempts
  pub in_flight :
      d.state ≡ processing → (d.attempts < d.max_attempts) × (is_some d.locked_at ≡ true)
  pub finished :
      d.state ≡ delivered
      → (d.attempts ≤ d.max_attempts) × (is_some d.delivered_at ≡ true) × (d.locked_at ≡ none)
  pub buried :
      d.state ≡ dead_letter
      → (d.max_attempts ≡ d.attempts) × (is_some d.dead_lettered_at ≡ true) × (d.locked_at ≡ none)

pub settle-IsConsistent :
    (now at : ℕ) (sent : Sent) (d : Delivery)
    → claimable now d ≡ true
    → IsConsistent d
    → IsConsistent (settle now at sent (lock now d)).0
unfolding settle claimable lock
settle-IsConsistent now at (threw message) d c h = ground arith
settle-IsConsistent now at (answered ok skipped id) d c h = ground arith

-- The delays are positive, so a row that goes back for a retry is not due at once.
pub settle-claimable :
    (now at : ℕ) (sent : Sent) (d : Delivery) → claimable now (settle now at sent d).0 ≡ false
unfolding settle claimable
settle-claimable now at (threw message) d = ground arith
settle-claimable now at (answered ok skipped id) d = ground arith
