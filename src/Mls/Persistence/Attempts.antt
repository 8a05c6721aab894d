-- ===== src/Mls/Persistence/Attempts.antt =====
-- The retries of the transaction of upsertPropertyAndListing.
use frontstead_kit.Prelude.{
  ℕ, zero, suc, ◌+◌, ◌-◌, ◌≤◌, ◌<◌, ◌≡◌, ◌⊎◌, inl, inr, refl, ap, sym, ◌∙◌, Bool, true, false,
  String, Option, none, some, Bool-cases, Option-cases, arith,
}
use frontstead_kit.Mls.Persistence.Write.{
  Environment, DbError, Ps, Ls, WriteOutcome, committed, failed, is_slug_conflict, run_transaction,
  attempt_from, resume, max_slug_attempts,
}

at_end : (n m : ℕ) → n ≤ m → m ≤ n + 0 → n ≡ m
at_end n m low high = omega (arith, low, high)

first_or_later : (n m : ℕ) → n ≤ m → (n ≡ m) ⊎ (n < m)
first_or_later n m h = ground (arith, h)

plus_zero : (n : ℕ) → n ≡ n + 0
plus_zero n = omega arith

plus_suc : (n left : ℕ) → n + 1 + left ≡ n + suc left
plus_suc n left = omega arith

module _ {Number : Type 0} (E : Environment Number) where
  -- An outcome, or an error in its place.
  abbrev pub Ends : WriteOutcome (Ps E) (Ls E) → WriteOutcome (Ps E) (Ls E) → Type 0
  Ends x o = (x ≡ o) ⊎ ((e : DbError) × (x ≡ failed e))

  run_free :
      (n : ℕ) (p id : String) (is_new : Bool) (ps : Ps E) (ls : Ls E)
      → E.refuses n ≡ none
      → run_transaction E n (committed p id is_new ps ls) ≡ committed p id is_new ps ls
  run_free n p id is_new ps ls h = rw (run_transaction, h) refl

  run_refused :
      (n : ℕ) (p id : String) (is_new : Bool) (ps : Ps E) (ls : Ls E) (e : DbError)
      → E.refuses n ≡ some e
      → run_transaction E n (committed p id is_new ps ls) ≡ failed e
  run_refused n p id is_new ps ls e h = rw (run_transaction, h) refl

  run_transaction_form : (n : ℕ) (o : WriteOutcome (Ps E) (Ls E)) → Ends (run_transaction E n o) o
  run_transaction_form n (failed e) = inl refl
  run_transaction_form n (committed p id is_new ps ls) = elim (Option-cases (E.refuses n)) [
    | inl free ↦ inl (rw (run_transaction, free) refl)
    | inr (e, refused) ↦ inr (e, rw (run_transaction, refused) refl)
  ]

  resume_either :
      (again x o : WriteOutcome (Ps E) (Ls E)) → Ends again o → Ends x o → Ends (resume E again x) o
  resume_either again (committed p id is_new ps ls) o a ends = ends
  resume_either again (failed e) o a ends = elim (Bool-cases (is_slug_conflict e)) [
    | inl conflict ↦ rw (resume, conflict) a
    | inr final ↦ inr (e, rw (resume, final) refl)
  ]

  -- The attempts end with the outcome of the body, or with an error.
  pub attempt_from_form :
      (left n : ℕ) (o : WriteOutcome (Ps E) (Ls E)) → Ends (attempt_from E left n o) o
  unfolding attempt_from
  attempt_from_form zero n o = run_transaction_form n o
  attempt_from_form (suc left) n o =
      resume_either (attempt_from E left (n + 1) o) (run_transaction E n o) o
        (attempt_from_form left (n + 1) o) (run_transaction_form n o)

  -- Every attempt from `n` on before `m` meets a slug conflict.
  pub record Contended (n m : ℕ) : Type 0 where
    pub conflict :
        (k : ℕ)
        → n ≤ k
        → k < m
        → (e : DbError) × (E.refuses k ≡ some e) × (is_slug_conflict e ≡ true)

  attempt_here :
      (left n : ℕ) (p id : String) (is_new : Bool) (ps : Ps E) (ls : Ls E)
      → E.refuses n ≡ none
      → attempt_from E left n (committed p id is_new ps ls) ≡ committed p id is_new ps ls
  unfolding attempt_from
  attempt_here zero n p id is_new ps ls h = rw (run_transaction, h) refl
  attempt_here (suc left) n p id is_new ps ls h = rw (run_free n p id is_new ps ls h) refl

  attempt_later :
      (left n : ℕ) (p id : String) (is_new : Bool) (ps : Ps E) (ls : Ls E) (e : DbError)
      → E.refuses n ≡ some e
      → is_slug_conflict e ≡ true
      → attempt_from E (suc left) n (committed p id is_new ps ls)
        ≡ attempt_from E left (n + 1) (committed p id is_new ps ls)
  unfolding attempt_from
  attempt_later left n p id is_new ps ls e h c =
      rw (run_refused n p id is_new ps ls e h, resume, c) refl

  attempt_last :
      (n : ℕ) (p id : String) (is_new : Bool) (ps : Ps E) (ls : Ls E) (e : DbError)
      → E.refuses n ≡ some e
      → attempt_from E 0 n (committed p id is_new ps ls) ≡ failed e
  unfolding attempt_from
  attempt_last n p id is_new ps ls e h = rw (run_transaction, h) refl

  attempt_stops :
      (left n : ℕ) (p id : String) (is_new : Bool) (ps : Ps E) (ls : Ls E) (e : DbError)
      → E.refuses n ≡ some e
      → is_slug_conflict e ≡ false
      → attempt_from E left n (committed p id is_new ps ls) ≡ failed e
  unfolding attempt_from
  attempt_stops zero n p id is_new ps ls e h final = rw (run_transaction, h) refl
  attempt_stops (suc left) n p id is_new ps ls e h final =
      rw (run_refused n p id is_new ps ls e h, resume, final) refl

  Contended-later : (n m : ℕ) → Contended n m → Contended (n + 1) m
  Contended-later n m c = record { conflict = λ k h h'. c.conflict k (omega (arith, h)) h' }

  shift : (n left : ℕ) → Contended n (n + suc left) → Contended (n + 1) (n + 1 + left)
  shift n left c = record {
    conflict = λ k h h'. c.conflict k (omega (arith, h)) (omega (arith, h'));
  }

  attempt_lands :
      (left n m : ℕ) (p id : String) (is_new : Bool) (ps : Ps E) (ls : Ls E)
      → n ≤ m
      → m ≤ n + left
      → Contended n m
      → E.refuses m ≡ none
      → attempt_from E left n (committed p id is_new ps ls) ≡ committed p id is_new ps ls
  attempt_lands zero n m p id is_new ps ls low high c free =
      attempt_here zero n p id is_new ps ls (ap E.refuses (at_end n m low high) ∙ free)
  attempt_lands (suc left) n m p id is_new ps ls low high c free = elim (first_or_later n m low) [
    | inl same ↦ attempt_here (suc left) n p id is_new ps ls (ap E.refuses same ∙ free)
    | inr less ↦
        let (e, refused, conflict) = c.conflict n (omega arith) less in
        attempt_later left n p id is_new ps ls e refused conflict
        ∙ attempt_lands left (n + 1) m p id is_new ps ls (omega (arith, less)) (omega (arith, high))
            (Contended-later n m c) free
  ]

  attempt_fails :
      (left n : ℕ) (p id : String) (is_new : Bool) (ps : Ps E) (ls : Ls E) (e : DbError)
      → Contended n (n + left)
      → E.refuses (n + left) ≡ some e
      → attempt_from E left n (committed p id is_new ps ls) ≡ failed e
  attempt_fails zero n p id is_new ps ls e c h =
      attempt_last n p id is_new ps ls e (ap E.refuses (plus_zero n) ∙ h)
  attempt_fails (suc left) n p id is_new ps ls e c h =
      let (first, refused, conflict) = c.conflict n (omega arith) (omega arith) in
      attempt_later left n p id is_new ps ls first refused conflict
      ∙ attempt_fails left (n + 1) p id is_new ps ls e (shift n left c)
          (ap E.refuses (plus_suc n left) ∙ h)

  attempt_refused :
      (left n m : ℕ) (p id : String) (is_new : Bool) (ps : Ps E) (ls : Ls E) (e : DbError)
      → n ≤ m
      → m ≤ n + left
      → Contended n m
      → E.refuses m ≡ some e
      → is_slug_conflict e ≡ false
      → attempt_from E left n (committed p id is_new ps ls) ≡ failed e
  attempt_refused zero n m p id is_new ps ls e low high c h final =
      attempt_stops zero n p id is_new ps ls e (ap E.refuses (at_end n m low high) ∙ h) final
  attempt_refused (suc left) n m p id is_new ps ls e low high c h final =
      elim (first_or_later n m low) [
        | inl same ↦ attempt_stops (suc left) n p id is_new ps ls e (ap E.refuses same ∙ h) final
        | inr less ↦
            let (first, refused, conflict) = c.conflict n (omega arith) less in
            attempt_later left n p id is_new ps ls first refused conflict
            ∙ attempt_refused left (n + 1) m p id is_new ps ls e (omega (arith, less))
                (omega (arith, high)) (Contended-later n m c) h final
      ]

  -- What the m-th attempt may meet for it to decide: nothing, an error that is no slug conflict, or
  -- anything if it is the eighth.
  abbrev pub Decides : ℕ → Type 0
  Decides m =
      (E.refuses m ≡ none)
      ⊎ (((e : DbError) × (E.refuses m ≡ some e) × (is_slug_conflict e ≡ false))
          ⊎ (m ≡ max_slug_attempts))

eighth :
    {Number : Type 0} (E : Environment Number) (m : ℕ)
    → m ≡ max_slug_attempts
    → Contended E 1 m
    → Contended E 1 8
eighth E m last c = record { conflict = λ k low high. c.conflict k low (omega (arith, high, last)) }

attempt_decides :
    {Number : Type 0} (E : Environment Number) (p id : String) (is_new : Bool) (ps : Ps E)
    (ls : Ls E) (m : ℕ)
    → m ≡ max_slug_attempts
    → Contended E 1 m
    → (o : Option DbError) → E.refuses m ≡ o
    → attempt_from E 7 1 (committed p id is_new ps ls)
      ≡ run_transaction E m (committed p id is_new ps ls)
attempt_decides E p id is_new ps ls m last c none free =
    attempt_lands E 7 1 m p id is_new ps ls (omega (arith, last)) (omega (arith, last)) c free
    ∙ sym (run_free E m p id is_new ps ls free)
attempt_decides E p id is_new ps ls m last c (some e) refused =
    attempt_fails E 7 1 p id is_new ps ls e (eighth E m last c) (ap E.refuses (sym last) ∙ refused)
    ∙ sym (run_refused E m p id is_new ps ls e refused)

-- The attempt that decides is the first that meets no slug conflict, or the eighth: when every
-- attempt before the m-th met one and the m-th meets none, another error, or is the eighth, the loop
-- ends with what the m-th attempt gives, so that no other error is retried and there is no ninth.
pub attempt_from_bound :
    {Number : Type 0} (E : Environment Number) (p id : String) (is_new : Bool) (ps : Ps E)
    (ls : Ls E) (m : ℕ)
    → 1 ≤ m
    → m ≤ max_slug_attempts
    → Contended E 1 m
    → Decides E m
    → attempt_from E (max_slug_attempts - 1) 1 (committed p id is_new ps ls)
      ≡ run_transaction E m (committed p id is_new ps ls)
attempt_from_bound E p id is_new ps ls m low high c (inl free) =
    attempt_lands E 7 1 m p id is_new ps ls low high c free
    ∙ sym (run_free E m p id is_new ps ls free)
attempt_from_bound E p id is_new ps ls m low high c (inr (inl (e, refused, final))) =
    attempt_refused E 7 1 m p id is_new ps ls e low high c refused final
    ∙ sym (run_refused E m p id is_new ps ls e refused)
attempt_from_bound E p id is_new ps ls m low high c (inr (inr last)) =
    attempt_decides E p id is_new ps ls m last c (E.refuses m) refl
