-- ===== src/Mls/Sync/Locks.antt =====
-- A whole run: its lock, its accounts and its watermark.
use mathlib.Core.Path.{subst₃}
use frontstead_kit.Prelude.{
  ℕ, ◌≡◌, refl, ap, sym, ◌∙◌, ◌⊎◌, inl, inr, Bool, true, false, Option, none, some, List, [], ◌∷◌,
  arith, String, if◌then◌else◌, Bool-cases, str_eq, eq_iff, eq_refl, take,
}
use frontstead_kit.Prelude.Int.{ℤ}
use frontstead_kit.Db.{Table}
use frontstead_kit.Mls.Value.{Record}
use frontstead_kit.Mls.Metrics.{
  Resource, Failure, Processed, SyncMetrics, empty_metrics, World, Feed, Settled, resolved,
  rejected, has, add, delete, lock_key, is_disabled, skipped_run, max_dead_letter_batch,
}
use frontstead_kit.Mls.Sync.{
  Progress, update_cursor, consume, close, sync_locked, run_sync, retry_failures,
}
use frontstead_kit.Mls.Sync.Pages.{IsBalanced, IsBehind, consume-IsBehind}
use frontstead_kit.Mls.Sync.Watermark.{
  records_of, IsAdvanced, since_of, update_cursor-IsAdvanced, consume-cursor, consume-latest,
  retry_from-cursor,
}

has-delete :
    (running : List String) (key j : String)
    → has (delete running key) j ≡ (if str_eq key j then false else has running j)
has-delete [] key j = ground arith
has-delete (k ∷ running) key j =
    ground (arith, has-delete running key j, eq_iff key j, eq_iff k key, eq_iff k j)

has-delete-add :
    (running : List String) (key j : String)
    → has running key ≡ false
    → has (delete (add running key) key) j ≡ has running j
has-delete-add running key j free =
    ground
      (arith, has-delete running key j, has-delete (key ∷ running) key j, eq_iff key j, eq_refl key)

module _ (T : Table Failure) {Store : Type 0} (resource : Resource)
    (dispatch : Record → Store → Store × Processed) (parse_date : String → Option ℕ) (now : ℕ)
    (enabled : Option String) (provider_id : String) (full_sync : Bool)
    (pending : T.State → List (String × Failure)) (connector : Option ℤ → Feed)
    (running : List String) (w : World T.State Store) where
  abbrev pub run : List String × World T.State Store × Settled
  run =
      run_sync T resource dispatch parse_date now enabled provider_id full_sync pending connector
        running w

  -- A run that is disabled, or whose provider and resource are already being synchronised, changes
  -- nothing and reports itself as skipped. Any run, also one that throws, leaves the set of locks
  -- as it found it.
  pub run_sync_locks :
      ((is_disabled enabled ≡ true) ⊎ (has running (lock_key provider_id resource) ≡ true)
        → run ≡ (running, w, skipped_run))
      × ((j : String) → has run.0 j ≡ has running j)
  unfolding run_sync
  run_sync_locks = (
    λ h. ground arith,
    λ j. ground (arith, has-delete-add running (lock_key provider_id resource) j),
  )

  close-resolved :
      (p : Progress T resource dispatch parse_date now × Option String) (w' : World T.State Store)
      (m : SyncMetrics)
      → close T resource dispatch parse_date now p ≡ (w', resolved m)
      → (p.0.1 ≡ m) × (update_cursor T resource dispatch parse_date now p.0.2 p.0.0 ≡ w')
  close-resolved ((v, n, o), none) w' m e = (cc, cc)
  close-resolved ((v, n, o), some message) w' m e = (cc, cc)

  close-rejected :
      (p : Progress T resource dispatch parse_date now × Option String) (w' : World T.State Store)
      (message : String)
      → close T resource dispatch parse_date now p ≡ (w', rejected message)
      → p.0.0 ≡ w'
  close-rejected ((v, n, o), none) w' message e = cc
  close-rejected ((v, n, o), some reason) w' message e = cc

  abbrev retried : World T.State Store × ℕ × ℕ
  retried = retry_failures T resource dispatch parse_date now w (pending w.failures)

  abbrev start : SyncMetrics
  start = record empty_metrics { retried = retried.1; recovered = retried.2 }

  abbrev feed : Feed
  feed = connector (since_of full_sync retried.0.cursor)

  abbrev progress : Progress T resource dispatch parse_date now × Option String
  progress = consume T resource dispatch parse_date now retried.0 start none feed

  retried-cursor : retried.0.cursor ≡ w.cursor
  unfolding retry_failures
  retried-cursor =
      retry_from-cursor T resource dispatch parse_date now w 0
        (take max_dead_letter_batch (pending w.failures))

  sync_locked_lem :
      sync_locked T resource dispatch parse_date now full_sync pending connector w
      ≡ close T resource dispatch parse_date now progress
  unfolding sync_locked
  sync_locked_lem = refl

  sync_locked-IsBalanced :
      (w' : World T.State Store) (m : SyncMetrics)
      → sync_locked T resource dispatch parse_date now full_sync pending connector w
        ≡ (w', resolved m)
      → IsBalanced m
  sync_locked-IsBalanced w' m e =
      let (same, _) = close-resolved progress w' m (sym sync_locked_lem ∙ e) in
      let h =
        consume-IsBehind T resource dispatch parse_date now retried.0 start none feed
          (omega arith) in
      let k : IsBehind 0 m = rw (← same) h in omega arith

  abbrev locked : World T.State Store × Settled
  locked = sync_locked T resource dispatch parse_date now full_sync pending connector w

  run_cases : (run ≡ (running, w, skipped_run)) ⊎ ((run.1 ≡ locked.0) × (run.2 ≡ locked.1))
  unfolding run_sync
  run_cases = elim (Bool-cases (is_disabled enabled)) [
    | inl off ↦ inl (ground arith)
    | inr on ↦ elim (Bool-cases (has running (lock_key provider_id resource))) [
      | inl busy ↦ inl (ground arith)
      | inr free ↦ inr (ground arith, ground arith)
    ]
  ]

  skipped-IsBalanced : (m : SyncMetrics) → skipped_run ≡ resolved m → IsBalanced m
  skipped-IsBalanced m e = ground arith

  -- When a run resolves, its metrics account for every fetched record exactly once.
  pub run_sync-IsBalanced : (m : SyncMetrics) → run.2 ≡ resolved m → IsBalanced m
  run_sync-IsBalanced m e = elim run_cases [
    | inl skip ↦ skipped-IsBalanced m (cc)
    | inr (_, settled) ↦ sync_locked-IsBalanced locked.0 m (cc)
  ]

  -- A run that was not skipped and that resolves leaves a cursor that no fetched record is later
  -- than, and that is the old one or the instant of a fetched record. The records are those of the
  -- connector's pages from the stored cursor less one minute, or from the start on a full sync.
  pub run_sync-IsAdvanced :
      (m : SyncMetrics)
      → run.2 ≡ resolved m
      → m.skipped ≡ false
      → IsAdvanced parse_date w.cursor run.1.cursor
          (records_of (connector (since_of full_sync w.cursor)))
  run_sync-IsAdvanced m e real = elim run_cases [
    | inl skip ↦ absurd (ground arith)
    | inr (world, settled) ↦
        let (_, stored) = close-resolved progress locked.0 m (sym sync_locked_lem ∙ (cc)) in
        let moved =
          update_cursor-IsAdvanced T resource dispatch parse_date now progress.0.0
            (records_of feed) in
        let seen = consume-latest T resource dispatch parse_date now retried.0 start none feed in
        subst₃ (λ old new rs. IsAdvanced parse_date old new rs)
          (consume-cursor T resource dispatch parse_date now retried.0 start none feed
            ∙ retried-cursor)
          (ap (λ o. (update_cursor T resource dispatch parse_date now o progress.0.0).cursor)
              (sym seen)
            ∙ ap (λ v. v.cursor) (stored ∙ sym world))
          (ap (λ c. records_of (connector (since_of full_sync c))) retried-cursor) moved
  ]

  -- A run whose generator throws leaves the cursor where it was, so that the next one starts there.
  pub run_sync_rejected : (message : String) → run.2 ≡ rejected message → run.1.cursor ≡ w.cursor
  run_sync_rejected message e = elim run_cases [
    | inl skip ↦ absurd (ground arith)
    | inr (world, settled) ↦
        ap (λ v. v.cursor) world
        ∙ ap (λ v. v.cursor)
            (sym (close-rejected progress locked.0 message (sym sync_locked_lem ∙ (cc))))
        ∙ consume-cursor T resource dispatch parse_date now retried.0 start none feed
        ∙ retried-cursor
  ]
