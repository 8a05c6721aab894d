-- ===== src/Delivery/Batch.antt =====
-- What a run of the dispatcher does to the outbox and to its tally.
use frontstead_kit.Prelude.{
  ℕ, ◌+◌, ◌≤◌, ◌≡◌, refl, String, true, Option, none, some, List, [], ◌∷◌, arith, if◌then◌else◌,
  take, length, length-take, any, str_eq, eq_iff, Bool-cases, Option-cases, inl, inr,
}
use frontstead_kit.Db.{Table, find-put_self}
use frontstead_kit.Delivery.{
  Delivery, Envelope, Sent, answered, threw, Tally, no_tally, returns, claimable, lock, envelope,
  settle, send_claimed, dispatch_one, dispatch_from, dispatch_deliveries, batch_limit,
  count_skipped,
}
use frontstead_kit.Delivery.Invariant.{IsConsistent, settle-IsConsistent, settle-claimable}

abbrev pub total : Tally → ℕ
total t = t.delivered + t.retried + t.dead_lettered + t.skipped

batch_limit_le : (limit : Option ℕ) → batch_limit limit ≤ 100
unfolding batch_limit
batch_limit_le limit = omega arith

settle-total :
    (now at : ℕ) (sent : Sent) (d : Delivery) (t : Tally)
    → total ((settle now at sent d).1 t) ≡ total t + 1
unfolding settle
settle-total now at (threw message) d t = ground arith
settle-total now at (answered ok skipped id) d t = ground arith

-- Row by row: one attempt on a row that may be claimed, nothing on any other.
abbrev pub after_attempt : ℕ → (Envelope → Sent) → ℕ → Option Delivery → Option Delivery
after_attempt now sender at none = none
after_attempt now sender at (some d) =
    if claimable now d then some (settle now at (sender (envelope d)) (lock now d)).0 else some d

after_attempt_idem :
    (now : ℕ) (sender : Envelope → Sent) (at : ℕ) (o : Option Delivery)
    → after_attempt now sender at (after_attempt now sender at o) ≡ after_attempt now sender at o
after_attempt_idem now sender at none = refl
after_attempt_idem now sender at (some d) =
    ground (arith, settle-claimable now at (sender (envelope d)) (lock now d))

module _ (T : Table Delivery) (now : ℕ) (sender : Envelope → Sent) (clock : String → ℕ) where
  -- The state and the tally after one round.
  pub record Round (s : T.State) (t : Tally) (id : String) : Type 0 where
    pub state : T.State
    pub tally : Tally
    pub ran : dispatch_one T now sender clock s t id ≡ returns (state, tally)
    pub counted : total tally ≡ total t + 1
    pub rows :
        (j : String)
        → T.find state j
          ≡ (if str_eq id j then after_attempt now sender (clock id) (T.find s j) else T.find s j)

  send_claimed_lem :
      (s : T.State) (t : Tally) (id : String) (d : Delivery)
      → T.find s id ≡ some d
      → send_claimed T now sender clock s t id
        ≡ returns (
          T.put s id (settle now (clock id) (sender (envelope d)) d).0,
          (settle now (clock id) (sender (envelope d)) d).1 t,
        )
  unfolding send_claimed
  send_claimed_lem s t id d h = rw (h, send_claimed)

  unclaimed-Round :
      (s : T.State) (t : Tally) (id : String)
      → dispatch_one T now sender clock s t id ≡ returns (s, count_skipped t)
      → after_attempt now sender (clock id) (T.find s id) ≡ T.find s id
      → Round s t id
  unclaimed-Round s t id ran same = record {
    state = s;
    tally = count_skipped t;
    ran = ran;
    counted = omega arith;
    rows = λ j. ground (arith, eq_iff id j);
  }

  claimed-Round :
      (s : T.State) (t : Tally) (id : String) (d : Delivery)
      → T.find s id ≡ some d
      → claimable now d ≡ true
      → Round s t id
  unfolding dispatch_one
  claimed-Round s t id d found free =
      let locked = T.put s id (lock now d) in
      let sent = sender (envelope d) in
      record {
        state = T.put locked id (settle now (clock id) sent (lock now d)).0;
        tally = (settle now (clock id) sent (lock now d)).1 t;
        ran =
            rw (found, dispatch_one)
              (rw free
                (send_claimed_lem locked t id (lock now d) (find-put_self T s id (lock now d))));
        counted = settle-total now (clock id) sent (lock now d) t;
        rows = λ j. ground (
          arith,
          T.find-put locked id j (settle now (clock id) sent (lock now d)).0,
          T.find-put s id j (lock now d),
          eq_iff id j,
        );
      }

  round : (s : T.State) (t : Tally) (id : String) → Round s t id
  unfolding dispatch_one
  round s t id = elim (Option-cases (T.find s id)) [
    | inl missing ↦ unclaimed-Round s t id (rw (missing, dispatch_one)) (rw missing)
    | inr (d, found) ↦ elim (Bool-cases (claimable now d)) [
      | inl free ↦ claimed-Round s t id d found free
      | inr busy ↦ unclaimed-Round s t id (rw (found, dispatch_one) (rw busy)) (rw found (rw busy))
    ]
  ]

  -- The whole loop.
  pub record Run (s : T.State) (t : Tally) (ids : List String) : Type 0 where
    pub state : T.State
    pub tally : Tally
    pub ran : dispatch_from T now sender clock s t ids ≡ returns (state, tally)
    pub counted : total tally ≡ total t + length ids
    pub rows :
        (j : String)
        → T.find state j ≡ (
            if any (λ id. str_eq id j) ids
            then after_attempt now sender (clock j) (T.find s j)
            else T.find s j)

  Run-from : (s : T.State) (t : Tally) (ids : List String) → Run s t ids
  unfolding dispatch_from
  Run-from s t [] = record {
    state = s;
    tally = t;
    ran = refl;
    counted = omega arith;
    rows = λ j. refl;
  }
  Run-from s t (id ∷ ids) =
      let one = round s t id in
      let more = Run-from one.state one.tally ids in
      record {
        state = more.state;
        tally = more.tally;
        ran = rw (one.ran, dispatch_from) more.ran;
        counted = omega (arith, one.counted, more.counted);
        rows = λ j. ground (
          arith,
          one.rows j,
          more.rows j,
          eq_iff id j,
          after_attempt_idem now sender (clock j) (T.find s j),
        );
      }

  -- A run always comes to an end with a result (no row that it has claimed is missing), and its
  -- four counters add up to the number of candidates that it took, which is at most 100.
  pub dispatch_deliveries-total :
      (limit : Option ℕ) (candidates : List String) (s : T.State)
      → (s' : T.State) × (t : Tally) × (dispatch_deliveries T now sender clock limit candidates s
          ≡ returns (s', t))
        × (total t ≡ length (take (batch_limit limit) candidates))
        × (total t ≤ 100)
  unfolding dispatch_deliveries
  dispatch_deliveries-total limit candidates s =
      let run = Run-from s no_tally (take (batch_limit limit) candidates) in
      (
        run.state,
        run.tally,
        run.ran,
        omega (arith, run.counted),
        omega
            (arith, run.counted, length-take (batch_limit limit) candidates, batch_limit_le limit),
      )

  -- The loop refines its row-by-row meaning: when a run returns, each row of the outbox is what one
  -- attempt makes of it if its id is among the candidates that were taken, however often, and is
  -- the old row otherwise.
  pub dispatch_deliveries_rows :
      (limit : Option ℕ) (candidates : List String) (s s' : T.State) (t : Tally)
      → dispatch_deliveries T now sender clock limit candidates s ≡ returns (s', t)
      → (j : String)
      → T.find s' j ≡ (
          if any (λ id. str_eq id j) (take (batch_limit limit) candidates)
          then after_attempt now sender (clock j) (T.find s j)
          else T.find s j)
  unfolding dispatch_deliveries
  dispatch_deliveries_rows limit candidates s s' t ran j =
      let run = Run-from s no_tally (take (batch_limit limit) candidates) in
      let same : run.state ≡ s' = cc (run.ran) in rw (← same) (run.rows j)

  after_attempt-IsConsistent :
      (at : ℕ) (o : Option Delivery) {d : Delivery}
      → ((e : Delivery) → o ≡ some e → IsConsistent e)
      → after_attempt now sender at o ≡ some d
      → IsConsistent d
  after_attempt-IsConsistent at none h e = cc
  after_attempt-IsConsistent at (some b) {d} h e = elim (Bool-cases (claimable now b)) [
    | inl free ↦
        let written : (settle now at (sender (envelope b)) (lock now b)).0 ≡ d = ground arith in
        rw (← written) (settle-IsConsistent now at (sender (envelope b)) b free (h b refl))
    | inr busy ↦ let same : b ≡ d = ground arith in rw (← same) (h b refl)
  ]

  -- A run keeps every row of the outbox consistent, whatever the provider answers or throws.
  pub dispatch_deliveries-IsConsistent :
      (limit : Option ℕ) (candidates : List String) (s s' : T.State) (t : Tally)
      → ((j : String) (d : Delivery) → T.find s j ≡ some d → IsConsistent d)
      → dispatch_deliveries T now sender clock limit candidates s ≡ returns (s', t)
      → (j : String) (d : Delivery) → T.find s' j ≡ some d
      → IsConsistent d
  dispatch_deliveries-IsConsistent limit candidates s s' t h ran j d found =
      let rows = dispatch_deliveries_rows limit candidates s s' t ran j in
      elim (Bool-cases (any (λ id. str_eq id j) (take (batch_limit limit) candidates))) [
        | inl tried ↦ after_attempt-IsConsistent (clock j) (T.find s j) (h j) (ground arith)
        | inr other ↦ h j d (ground arith)
      ]

  -- A second run at the same instant over the same candidates sends nothing: every row stays as the
  -- first run left it.
  pub dispatch_deliveries_again :
      (limit : Option ℕ) (candidates : List String) (s s' s'' : T.State) (t t' : Tally)
      → dispatch_deliveries T now sender clock limit candidates s ≡ returns (s', t)
      → dispatch_deliveries T now sender clock limit candidates s' ≡ returns (s'', t')
      → (j : String) → T.find s'' j ≡ T.find s' j
  dispatch_deliveries_again limit candidates s s' s'' t t' first second j = ground (
    arith,
    dispatch_deliveries_rows limit candidates s s' t first j,
    dispatch_deliveries_rows limit candidates s' s'' t' second j,
    after_attempt_idem now sender (clock j) (T.find s j),
  )
