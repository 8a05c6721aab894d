-- ===== src/Risk/Rules.antt =====
-- The severity that the rules of collectRiskFactors come to.
use mathlib.Core.List.{◌++◌ as append}
use frontstead_kit.Prelude.{
  ℕ, String, Bool, true, false, ◌&&◌, ◌||◌, Option, none, some, List, [], ◌∷◌, any, any_or, keep,
  map, ◌≡◌, inl, inr, refl, ◌∙◌, sym, if◌then◌else◌, arith, Bool-cases,
}
use frontstead_kit.Prelude.Int.{ℤ, pos, leb_ℤ}
use frontstead_kit.Risk.{
  Severity, low, medium, high, Transaction, RiskDocument, RiskTask, days_away, closing_days,
  is_within, is_coming, severe_if, is_overdue, overdue_factor, contingencies, contingency_factors,
  closing_factors, missing_factors, unverified_factors, is_missing, is_matched,
  collect_risk_factors, is_high, is_medium, highest_severity,
}

-- A contingency within seven days whose factor has a severity that passes a test.
abbrev pub expires_as : (Severity → Bool) → (now : ℕ) → Option ℕ → Bool
expires_as q now none = false
expires_as q now (some date) =
    is_coming (days_away now date) 7 && q (severe_if (leb_ℤ (days_away now date) (pos 3)))

abbrev pub closes_as : (Severity → Bool) → Option ℤ → Bool
closes_as q none = false
closes_as q (some days) = is_coming days 14 && q (severe_if (leb_ℤ days (pos 7)))

-- The rules by the facts alone: some factor has a severity that passes a test.
abbrev pub applies : (Severity → Bool) → (now : ℕ) → Transaction → Bool
applies q now tx =
    let closing = closing_days now tx.closing_date in
    (any (is_overdue now) tx.tasks && q (severe_if (is_within closing 14)))
    || (any (λ c. expires_as q now c.1) (contingencies tx)
        || (closes_as q closing
            || ((any is_missing tx.documents && q (severe_if (is_within closing 14)))
                || (any is_matched tx.documents && q medium))))

abbrev pub any_severity : Severity → Bool
any_severity s = true

module _ {A : Type 0} where
  any-append : (p : A → Bool) (xs ys : List A) → any p (append xs ys) ≡ (any p xs || any p ys)
  any-append p [] ys = refl
  any-append p (x ∷ xs) ys = ground (arith, any-append p xs ys)

  any_kept : (p : A → Bool) (b : Bool) (xs : List A) → any (λ x. b) (keep p xs) ≡ (any p xs && b)
  any_kept p b [] = refl
  any_kept p b (x ∷ xs) = ground (arith, any_kept p b xs)

  any-map :
      {B : Type 0} (p : B → Bool) (f : A → B) (xs : List A)
      → any p (map f xs) ≡ any (λ x. p (f x)) xs
  any-map p f [] = refl
  any-map p f (x ∷ xs) = rw (any-map p f xs) refl

any_five :
    {A : Type 0} (p : A → Bool) (a b c d e : List A) (t u v w x : Bool)
    → any p a ≡ t
    → any p b ≡ u
    → any p c ≡ v
    → any p d ≡ w
    → any p e ≡ x
    → any p (append a (append b (append c (append d e)))) ≡ (t || (u || (v || (w || x))))
any_five p a b c d e t u v w x ea eb ec ed ee =
    rw
      (
        any-append p a (append b (append c (append d e))),
        any-append p b (append c (append d e)),
        any-append p c (append d e),
        any-append p d e,
        ea,
        eb,
        ec,
        ed,
        ee,
      )
      refl

module _ (q : Severity → Bool) (now : ℕ) where
  overdue_lem :
      (closing : Option ℤ) (p : RiskTask → Bool) (tasks : List RiskTask)
      → any (λ f. q f.severity) (map (overdue_factor now closing) (keep p tasks))
        ≡ (any p tasks && q (severe_if (is_within closing 14)))
  overdue_lem closing p tasks =
      any-map (λ f. q f.severity) (overdue_factor now closing) (keep p tasks)
      ∙ any_kept p (q (severe_if (is_within closing 14))) tasks

  contingency_lem :
      (cs : List (String × Option ℕ))
      → any (λ f. q f.severity) (contingency_factors now cs) ≡ any (λ c. expires_as q now c.1) cs
  unfolding contingency_factors
  contingency_lem [] = refl
  contingency_lem ((label, none) ∷ cs) = contingency_lem cs
  contingency_lem ((label, some date) ∷ cs) = elim (Bool-cases (is_coming (days_away now date) 7)) [
    | inl soon ↦ rw (soon, contingency_lem cs) refl
    | inr later ↦ rw (later, contingency_lem cs) refl
  ]

  closing_lem : (o : Option ℤ) → any (λ f. q f.severity) (closing_factors o) ≡ closes_as q o
  closing_lem none = refl
  closing_lem (some days) = ground arith

  missing_lem :
      (closing : Option ℤ) (p : RiskDocument → Bool) (docs : List RiskDocument)
      → any (λ f. q f.severity) (missing_factors closing (keep p docs))
        ≡ (any p docs && q (severe_if (is_within closing 14)))
  missing_lem closing p [] = refl
  missing_lem closing p (d ∷ docs) = ground (arith, missing_lem closing p docs)

  unverified_lem :
      (p : RiskDocument → Bool) (docs : List RiskDocument)
      → any (λ f. q f.severity) (unverified_factors (keep p docs)) ≡ (any p docs && q medium)
  unverified_lem p [] = refl
  unverified_lem p (d ∷ docs) = ground (arith, unverified_lem p docs)

  collect_lem :
      (tx : Transaction) → any (λ f. q f.severity) (collect_risk_factors now tx) ≡ applies q now tx
  unfolding collect_risk_factors
  collect_lem tx =
      let closing = closing_days now tx.closing_date in
      any_five (λ f. q f.severity)
        (map (overdue_factor now closing) (keep (is_overdue now) tx.tasks))
        (contingency_factors now (contingencies tx)) (closing_factors closing)
        (missing_factors closing (keep is_missing tx.documents))
        (unverified_factors (keep is_matched tx.documents))
        (any (is_overdue now) tx.tasks && q (severe_if (is_within closing 14)))
        (any (λ c. expires_as q now c.1) (contingencies tx)) (closes_as q closing)
        (any is_missing tx.documents && q (severe_if (is_within closing 14)))
        (any is_matched tx.documents && q medium) (overdue_lem closing (is_overdue now) tx.tasks)
        (contingency_lem (contingencies tx)) (closing_lem closing)
        (missing_lem closing is_missing tx.documents) (unverified_lem is_matched tx.documents)

either : (b : Bool) → (is_high (severe_if b) || is_medium (severe_if b)) ≡ true
either b = ground arith

abbrev high_or_medium : Severity → Bool
high_or_medium s = is_high s || is_medium s

expires_either :
    (now : ℕ) (o : Option ℕ) → expires_as high_or_medium now o ≡ expires_as any_severity now o
expires_either now none = refl
expires_either now (some date) = rw (either (leb_ℤ (days_away now date) (pos 3))) refl

closes_either : (o : Option ℤ) → closes_as high_or_medium o ≡ closes_as any_severity o
closes_either none = refl
closes_either (some days) = rw (either (leb_ℤ days (pos 7))) refl

applies_either :
    (now : ℕ) (tx : Transaction) → applies high_or_medium now tx ≡ applies any_severity now tx
applies_either now tx =
    let closing = closing_days now tx.closing_date in
    rw
      (
        either (is_within closing 14),
        expires_either now tx.inspection_contingency_date,
        expires_either now tx.financing_contingency_date,
        expires_either now tx.appraisal_contingency_date,
        expires_either now tx.title_contingency_date,
        closes_either closing,
      )
      refl

either_applies :
    (now : ℕ) (tx : Transaction)
    → (applies is_high now tx || applies is_medium now tx) ≡ applies any_severity now tx
either_applies now tx =
    rw (sym (collect_lem is_high now tx), sym (collect_lem is_medium now tx))
      (sym (
          any_or (λ f. is_high f.severity) (λ f. is_medium f.severity)
            (collect_risk_factors now tx))
        ∙ collect_lem high_or_medium now tx
        ∙ applies_either now tx)

tiers :
    (h m a : Bool)
    → (h || m) ≡ a
    → (if h then high else if m then medium else low)
      ≡ (if h then high else if a then medium else low)
tiers h m a e = ground (arith, e)

-- The severity of a transaction by the rules that apply to it with each severity.
pub highest_severity-applies :
    (now : ℕ) (tx : Transaction)
    → highest_severity (collect_risk_factors now tx) ≡ (
        if applies is_high now tx
        then high
        else if applies any_severity now tx
        then medium
        else low)
unfolding highest_severity
highest_severity-applies now tx =
    rw (highest_severity, collect_lem is_high now tx, collect_lem is_medium now tx)
      (tiers (applies is_high now tx) (applies is_medium now tx) (applies any_severity now tx)
        (either_applies now tx))
