-- ===== src/Delivery/Examples.antt =====
-- Concrete runs of the outbox.
use frontstead_kit.Prelude.{
  ℕ, ◌≤◌, ◌≡◌, refl, inr, String, true, none, some, List, [], ◌∷◌, length, take, any, str_eq,
  if◌then◌else◌, arith, codes, leb,
}
use mathlib.Core.Option
use frontstead_kit.Db.{Table, finite_map}
use frontstead_kit.Delivery.{
  Delivery, Envelope, Sent, answered, threw, Tally, Outcome, returns, not_found, pending, retry,
  delivered, dead_letter, claimable, settle, lock, send_claimed, dispatch_one, dispatch_from,
  dispatch_deliveries, batch_limit,
}
use frontstead_kit.Delivery.Invariant.{IsConsistent}
use frontstead_kit.Delivery.Batch.{
  total, after_attempt, dispatch_deliveries-total, dispatch_deliveries_rows,
  dispatch_deliveries-IsConsistent, dispatch_deliveries_again,
}
use frontstead_kit.Delivery.Retries.{after_runs, failing_row_dies}

abbrev queued : List ℕ → ℕ → Delivery
queued to attempts = record {
  recipient = to;
  payload = record { subject = codes "New inquiry"; text = codes "Hello"; reply_to = none };
  state = if leb attempts 0 then pending else retry;
  attempts = attempts;
  max_attempts = 5;
  next_attempt_at = 1_000_000;
  locked_at = none;
  delivered_at = none;
  dead_lettered_at = none;
  last_error = none;
  provider_id = none;
}

abbrev outbox : Table.State (finite_map Delivery)
outbox k =
    if str_eq k "a"
    then some (queued (codes "ann@x.io") 0)
    else if str_eq k "b"
    then some (queued (codes "") 4)
    else none

-- The provider refuses an empty recipient.
abbrev provider : Envelope → Sent
provider e = elim e.to [
  | [] ↦ threw (codes "no recipient")
  | _ ∷ _ ↦ answered (some true) none (some "m1")
]

abbrev at_noon : String → ℕ
at_noon id = 2_000_001

abbrev ids : List String
ids = "a" ∷ "b" ∷ "c" ∷ []

abbrev outcome :
    Table.State (finite_map Delivery) → Outcome (Table.State (finite_map Delivery) × Tally)
outcome = dispatch_deliveries (finite_map Delivery) 2_000_000 provider at_noon none ids

abbrev state_of : {A : Type 0} → A → Outcome (A × Tally) → A
state_of s (returns (s', t)) = s'
state_of s not_found = s

abbrev first : Table.State (finite_map Delivery)
first = state_of outbox (outcome outbox)

abbrev second : Table.State (finite_map Delivery)
second = state_of first (outcome first)

first_run :
    outcome outbox
    ≡ returns (first, record { delivered = 1; retried = 0; dead_lettered = 1; skipped = 1 })
unfolding dispatch_deliveries dispatch_from dispatch_one send_claimed settle batch_limit claimable
first_run = refl

second_run :
    outcome first
    ≡ returns (second, record { delivered = 0; retried = 0; dead_lettered = 0; skipped = 3 })
unfolding dispatch_deliveries dispatch_from dispatch_one send_claimed settle batch_limit claimable
second_run = refl

delivered_first : Option.map (λ d. d.state) (first "a") ≡ some delivered
unfolding dispatch_deliveries dispatch_from dispatch_one send_claimed settle batch_limit claimable
delivered_first = refl

abbrev tally_of_first : Tally
tally_of_first = record { delivered = 1; retried = 0; dead_lettered = 1; skipped = 1 }

abbrev tally_of_second : Tally
tally_of_second = record { delivered = 0; retried = 0; dead_lettered = 0; skipped = 3 }

dispatch_deliveries-total_example :
    (s' : Table.State (finite_map Delivery)) × (t : Tally) × (outcome outbox ≡ returns (s', t))
    × (total t ≡ length (take (batch_limit none) ids))
    × (total t ≤ 100)
dispatch_deliveries-total_example =
    dispatch_deliveries-total (finite_map Delivery) 2_000_000 provider at_noon none ids outbox

dispatch_deliveries_rows_example : first "b" ≡ (
    if any (λ id. str_eq id "b") (take (batch_limit none) ids)
    then after_attempt 2_000_000 provider 2_000_001 (outbox "b")
    else outbox "b")
dispatch_deliveries_rows_example =
    dispatch_deliveries_rows (finite_map Delivery) 2_000_000 provider at_noon none ids outbox first
      tally_of_first first_run "b"

outbox-IsConsistent : (j : String) (d : Delivery) → outbox j ≡ some d → IsConsistent d
outbox-IsConsistent j d h = ground arith

first_b :
    first "b"
    ≡ some
        (settle 2_000_000 2_000_001 (threw (codes "no recipient")) (lock 2_000_000 (queued [] 4))).0
unfolding dispatch_deliveries dispatch_from dispatch_one send_claimed settle batch_limit claimable
    lock
first_b = refl

dispatch_deliveries-IsConsistent_example :
    IsConsistent
      (settle 2_000_000 2_000_001 (threw (codes "no recipient")) (lock 2_000_000 (queued [] 4))).0
dispatch_deliveries-IsConsistent_example =
    dispatch_deliveries-IsConsistent (finite_map Delivery) 2_000_000 provider at_noon none ids
      outbox first tally_of_first outbox-IsConsistent first_run "b" _ first_b

dispatch_deliveries_again_example : second "a" ≡ first "a"
dispatch_deliveries_again_example =
    dispatch_deliveries_again (finite_map Delivery) 2_000_000 provider at_noon none ids outbox first
      second tally_of_first tally_of_second first_run second_run "a"

abbrev refusing : Envelope → Sent
refusing e = threw (codes "down")

failing_row_dies_example :
    ((after_runs refusing (1_000_000 ∷ 9_000_000 ∷ []) (queued [] 3)).state ≡ dead_letter)
    × ((after_runs refusing (1_000_000 ∷ 9_000_000 ∷ []) (queued [] 3)).attempts ≡ 5)
failing_row_dies_example =
    failing_row_dies refusing (codes "down") (λ e. refl) (1_000_000 ∷ 9_000_000 ∷ []) (queued [] 3)
      (record { state = inr refl; left = omega arith }) (omega arith) (omega arith)
