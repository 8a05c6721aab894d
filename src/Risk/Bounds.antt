-- ===== src/Risk/Bounds.antt =====
-- What one scan of an agent's transactions creates and counts.
use frontstead_kit.Prelude.{
  ℕ, suc, ◌+◌, ◌≤◌, ◌<◌, ◌≡◌, refl, inl, inr, String, Bool, true, false, Option, some, List, [],
  ◌∷◌, any, length, leb, All, str_eq, or_else, arith, Bool-cases,
}
use frontstead_kit.Risk.{RiskFactor, Transaction, collect_risk_factors}
use frontstead_kit.Risk.Scan.{
  ScanResult, Summary, RiskAction, Analysis, queued, passed, threw, queue_factors,
  analyze_and_queue, count_analysis, scan_from, scan_for_agent,
}

abbrev total : ScanResult → ℕ
total r = r.created + r.skipped + r.errors

abbrev IsNew : List String → RiskAction → Type 0
IsNew active_ids a = any (str_eq a.source_id) active_ids ≡ false

-- The counters and actions `x'` of a scan of `n` transactions from `x` on, with `left` more actions
-- allowed.
record Scans (active_ids : List String) (n left : ℕ) (x x' : ScanResult × List RiskAction)
    : Type 0 where
  created : x'.0.created ≡ length x'.1
  capped : x'.0.created ≤ x.0.created + left
  counted : total x'.0 ≤ total x.0 + n
  complete : x'.0.created < x.0.created + left → total x'.0 ≡ total x.0 + n
  fresh : All (IsNew active_ids) x'.1

module _ (now : ℕ) (format_date : ℕ → String)
    (model : Transaction → List RiskFactor → Option Summary) (refuses : String → Bool)
    (agent_id : String) (active_ids : List String) where
  IsQueueable : Analysis → Type 0
  IsQueueable (queued a) = IsNew active_ids a
  IsQueueable passed = Unit
  IsQueueable threw = Unit

  queue_factors-IsQueueable :
      (tx : Transaction) (factors : List RiskFactor)
      → IsQueueable (queue_factors now format_date model refuses agent_id tx active_ids factors)
  unfolding IsQueueable
  queue_factors-IsQueueable tx [] = tt
  queue_factors-IsQueueable tx (f ∷ factors) = elim (Bool-cases (any (str_eq tx.id) active_ids)) [
    | inl active ↦ rw active tt
    | inr free ↦ elim (Bool-cases (refuses tx.id)) [
      | inl refused ↦ rw (free, refused) tt
      | inr taken ↦ rw (free, taken) free
    ]
  ]

  scan_stops :
      (n left : ℕ) (x : ScanResult × List RiskAction)
      → leb left 0 ≡ true
      → x.0.created ≡ length x.1
      → All (IsNew active_ids) x.1
      → Scans active_ids n left x x
  scan_stops n left x full e all = record {
    created = e;
    capped = omega arith;
    counted = omega arith;
    complete = λ h. absurd (ground (arith, h, full));
    fresh = all;
  }

  one_more :
      (n left : ℕ) (a : Analysis) (x x' : ScanResult × List RiskAction)
      → 0 < left
      → let (left', y) = count_analysis now format_date model refuses a left x in
        Scans active_ids n left' y x' → Scans active_ids (suc n) left x x'
  one_more n left (queued a) (r, actions) x' h s = record {
    created = s.created;
    capped = omega (arith, s.capped, h);
    counted = omega (arith, s.counted);
    complete = λ k. omega (arith, s.complete (omega (arith, k, h)));
    fresh = s.fresh;
  }
  one_more n left passed (r, actions) x' h s = record {
    created = s.created;
    capped = s.capped;
    counted = omega (arith, s.counted);
    complete = λ k. omega (arith, s.complete k);
    fresh = s.fresh;
  }
  one_more n left threw (r, actions) x' h s = record {
    created = s.created;
    capped = s.capped;
    counted = omega (arith, s.counted);
    complete = λ k. omega (arith, s.complete k);
    fresh = s.fresh;
  }

  counted_created :
      (a : Analysis) (left : ℕ) (x : ScanResult × List RiskAction)
      → x.0.created ≡ length x.1
      → let y = (count_analysis now format_date model refuses a left x).1 in
        y.0.created ≡ length y.1
  counted_created (queued a) left (r, actions) e = omega (arith, e)
  counted_created passed left (r, actions) e = e
  counted_created threw left (r, actions) e = e

  counted-IsNew :
      (a : Analysis) (left : ℕ) (x : ScanResult × List RiskAction)
      → IsQueueable a
      → All (IsNew active_ids) x.1
      → All (IsNew active_ids) (count_analysis now format_date model refuses a left x).1.1
  unfolding IsQueueable
  counted-IsNew (queued a) left (r, actions) q all = (q, all)
  counted-IsNew passed left (r, actions) q all = all
  counted-IsNew threw left (r, actions) q all = all

  scan_from-Scans :
      (txs : List Transaction) (left : ℕ) (x : ScanResult × List RiskAction)
      → x.0.created ≡ length x.1
      → All (IsNew active_ids) x.1
      → Scans active_ids
          (length txs)
          left
          x
          (scan_from now format_date model refuses agent_id active_ids txs left x)
  unfolding scan_from analyze_and_queue
  scan_from-Scans [] left x e all = record {
    created = e;
    capped = omega arith;
    counted = omega arith;
    complete = λ h. omega arith;
    fresh = all;
  }
  scan_from-Scans (tx ∷ txs) left x e all =
      let a = analyze_and_queue now format_date model refuses agent_id tx active_ids in
      let (left', y) = count_analysis now format_date model refuses a left x in
      let rest =
        scan_from-Scans txs left' y (counted_created a left x e) (
          counted-IsNew a left x (queue_factors-IsQueueable tx (collect_risk_factors now tx))
            all) in
      elim (Bool-cases (leb left 0)) [
        | inl full ↦ rw full (scan_stops (suc (length txs)) left x full e all)
        | inr room ↦ rw room (
            one_more (length txs) left a x
              (scan_from now format_date model refuses agent_id active_ids txs left' y)
              (ground (arith, room)) rest)
      ]

-- What a scan of `n` transactions reports and creates, of at most `most` actions.
pub record IsBounded (active_ids : List String) (n most : ℕ) (x : ScanResult × List RiskAction)
    : Type 0 where
  pub created : x.0.created ≡ length x.1
  pub capped : x.0.created ≤ most
  pub counted : x.0.created + x.0.skipped + x.0.errors ≤ n
  pub complete : x.0.created < most → x.0.created + x.0.skipped + x.0.errors ≡ n
  pub fresh : All (λ a. any (str_eq a.source_id) active_ids ≡ false) x.1

-- A scan whose queries succeed creates as many actions as it reports, at most `max_items`, or 15, of
-- them and none for a transaction that has an active one. It counts each transaction at most once, and
-- each exactly once unless it stops at the limit.
pub scan_for_agent-IsBounded :
    (now : ℕ) (format_date : ℕ → String) (model : Transaction → List RiskFactor → Option Summary)
    (refuses : String → Bool) (agent_id : String) (max_items : Option ℕ) (txs : List Transaction)
    (active_ids : List String)
    → IsBounded active_ids
        (length txs)
        (or_else max_items 15)
        (scan_for_agent now format_date model refuses agent_id max_items (some (txs, active_ids)))
unfolding scan_for_agent
scan_for_agent-IsBounded now format_date model refuses agent_id max_items txs active_ids =
    let s =
      scan_from-Scans now format_date model refuses agent_id active_ids txs (or_else max_items 15)
        (record { created = 0; skipped = 0; errors = 0 }, []) refl tt in
    record {
      created = s.created;
      capped = omega (arith, s.capped);
      counted = omega (arith, s.counted);
      complete = λ h. omega (arith, s.complete (omega (arith, h)));
      fresh = s.fresh;
    }
