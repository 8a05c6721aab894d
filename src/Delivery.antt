-- ===== src/Delivery.antt =====
-- The outbox of inquiry e-mails, apps/api/src/services/inquiryDeliveryService.ts, with the columns
-- of `InquiryDelivery` in packages/db/prisma/schema.prisma that it reads or writes. Instants are
-- milliseconds since the epoch and texts are lists of UTF-16 code units. The e-mail provider and
-- the clock are arguments; the query for candidates is the argument `candidates`.
pub mod Invariant
pub mod Batch
pub mod Retries
mod Examples
use frontstead_kit.Prelude.{
  ℕ, zero, suc, ◌+◌, ◌*◌, ◌-◌, min, max, String, Bool, true, false, ◌&&◌, ◌||◌, Option, none, some,
  List, [], ◌∷◌, leb, or_else, if◌then◌else◌, take, codes,
}
use frontstead_kit.Db.{Table}

pub data DeliveryState : Type 0 where
  pending processing retry delivered dead_letter : DeliveryState

pub record Payload : Type 0 where
  pub subject : List ℕ
  pub text : List ℕ
  pub reply_to : Option (List ℕ)

pub record Delivery : Type 0 where
  pub recipient : List ℕ
  pub payload : Payload
  pub state : DeliveryState
  pub attempts : ℕ
  pub max_attempts : ℕ
  pub next_attempt_at : ℕ
  pub locked_at : Option ℕ
  pub delivered_at : Option ℕ
  pub dead_lettered_at : Option ℕ
  pub last_error : Option (List ℕ)
  pub provider_id : Option String

-- The argument of `sender`.
pub record Envelope : Type 0 where
  pub to : List ℕ
  pub subject : List ℕ
  pub text : List ℕ
  pub reply_to : Option (List ℕ)

-- What `sender` resolves to, or the message of what it throws.
pub data Sent : Type 0 where
  answered : (ok skipped : Option Bool) → (id : Option String) → Sent
  threw : List ℕ → Sent

pub record Tally : Type 0 where
  pub delivered : ℕ
  pub retried : ℕ
  pub dead_lettered : ℕ
  pub skipped : ℕ

abbrev pub no_tally : Tally
no_tally = record { delivered = 0; retried = 0; dead_lettered = 0; skipped = 0 }

-- `findUniqueOrThrow` on a missing row leaves the whole run.
pub data Outcome {ℓ} (A : Type ℓ) : Type ℓ where
  returns : A → Outcome A
  not_found : Outcome A

abbrev pub stale_after : ℕ
stale_after = 15 * 60_000

-- RETRY_DELAYS_MS, at the index that the caller has clamped.
abbrev pub retry_delay : ℕ → ℕ
retry_delay zero = 60_000
retry_delay (suc zero) = 5 * 60_000
retry_delay (suc (suc zero)) = 30 * 60_000
retry_delay (suc (suc (suc _))) = 2 * 60 * 60_000

abbrev pub is_waiting : DeliveryState → Bool
is_waiting pending = true
is_waiting retry = true
is_waiting _ = false

abbrev is_processing : DeliveryState → Bool
is_processing processing = true
is_processing _ = false

-- `lockedAt: { lte: staleLock }`, with staleLock = now - 15 minutes; a null is never matched.
abbrev is_stale : ℕ → Option ℕ → Bool
is_stale now none = false
is_stale now (some at) = leb (at + stale_after) now

-- The `where` of the claim, which is also that of the query for candidates.
unfoldable pub claimable : ℕ → Delivery → Bool
claimable now d =
    (is_waiting d.state && leb d.next_attempt_at now)
    || (is_processing d.state && is_stale now d.locked_at)

-- `take` of the query.
pub batch_limit : Option ℕ → ℕ
batch_limit limit = min (max (or_else limit 25) 1) 100

pub lock : ℕ → Delivery → Delivery
lock now d = record d { state = processing; locked_at = some now }

abbrev pub envelope : Delivery → Envelope
envelope d = record {
  to = d.recipient;
  subject = d.payload.subject;
  text = d.payload.text;
  reply_to = d.payload.reply_to;
}

abbrev pub not_configured : List ℕ
not_configured = codes "Email provider is not configured; delivery was not sent"

-- `sent.skipped || sent.ok === false` throws the same way as the provider.
pub refuses : Option Bool → Option Bool → Bool
refuses _ (some true) = true
refuses (some false) _ = true
refuses _ _ = false

pub succeed : ℕ → Option String → Delivery → Delivery
succeed at id d = record d {
  state = delivered;
  attempts = d.attempts + 1;
  delivered_at = some at;
  provider_id = id;
  locked_at = none;
  last_error = none;
}

abbrev pub exhausted : Delivery → Bool
exhausted d = leb d.max_attempts (d.attempts + 1)

-- The `catch` block; `error.message.slice(0, 2000)`.
pub fail : ℕ → ℕ → List ℕ → Delivery → Delivery
fail now at message d = record d {
  attempts = d.attempts + 1;
  state = if exhausted d then dead_letter else retry;
  next_attempt_at =
      if exhausted d then d.next_attempt_at else now + retry_delay (min (d.attempts + 1 - 1) 3);
  dead_lettered_at = if exhausted d then some at else none;
  locked_at = none;
  last_error = some (take 2000 message);
}

abbrev pub count_delivered : Tally → Tally
count_delivered t = record t { delivered = t.delivered + 1 }

abbrev pub count_failed : Bool → Tally → Tally
count_failed true t = record t { dead_lettered = t.dead_lettered + 1 }
count_failed false t = record t { retried = t.retried + 1 }

abbrev pub count_skipped : Tally → Tally
count_skipped t = record t { skipped = t.skipped + 1 }

-- The `try` and `catch` of one claimed row: the row that is written, and what is counted.
pub settle : ℕ → ℕ → Sent → Delivery → Delivery × (Tally → Tally)
unfolding refuses succeed fail
settle now at (threw message) d = (fail now at message d, count_failed (exhausted d))
settle now at (answered ok skipped id) d =
    if refuses ok skipped
    then (fail now at not_configured d, count_failed (exhausted d))
    else (succeed at id d, count_delivered)

module _ (T : Table Delivery) (now : ℕ) (sender : Envelope → Sent) (clock : String → ℕ) where
  -- `findUniqueOrThrow`, the send and the last `update`, for a row that this run has claimed.
  pub send_claimed : T.State → Tally → String → Outcome (T.State × Tally)
  send_claimed s t id = elim (T.find s id) [
    | none ↦ not_found
    | some d ↦
        let (d', count) = settle now (clock id) (sender (envelope d)) d in
        returns (T.put s id d', count t)
  ]

  -- One round of the loop. `updateMany` with the claim's `where` reaches at most one row.
  pub dispatch_one : T.State → Tally → String → Outcome (T.State × Tally)
  unfolding send_claimed claimable lock
  dispatch_one s t id = elim (T.find s id) [
    | none ↦ returns (s, count_skipped t)
    | some d ↦
        if claimable now d
        then send_claimed (T.put s id (lock now d)) t id
        else returns (s, count_skipped t)
  ]

  pub dispatch_from : T.State → Tally → List String → Outcome (T.State × Tally)
  dispatch_from s t [] = returns (s, t)
  dispatch_from s t (id ∷ ids) = elim (dispatch_one s t id) [
    | not_found ↦ not_found
    | returns (s', t') ↦ dispatch_from s' t' ids
  ]

  -- dispatchInquiryDeliveries; `candidates` is what the query gives, cut to the batch limit.
  pub dispatch_deliveries : Option ℕ → List String → T.State → Outcome (T.State × Tally)
  unfolding dispatch_from
  dispatch_deliveries limit candidates s =
      dispatch_from s no_tally (take (batch_limit limit) candidates)
