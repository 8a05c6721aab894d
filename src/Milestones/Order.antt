-- ===== src/Milestones/Order.antt =====
-- The order of the dates of milestones, validateMilestoneDateOrder.
use mathlib.Core.Path.{subst}
use frontstead_kit.Prelude.{
  ℕ, ◌≤◌, ◌<◌, ◌≡◌, sym, ap, ◌∙◌, ◌⊎◌, inl, inr, String, true, List, [], ◌∷◌, ◌++◌, leb, is_some,
  or_else, arith, All, In, Bool-cases,
}
use frontstead_kit.Milestones.Template.{MilestoneDefinition}
use frontstead_kit.Milestones.{
  Dates, date_at, insert, sort, pair_errors, order_errors, validate_milestone_date_order,
}

-- The order of two definitions.
abbrev NotAfter : MilestoneDefinition → MilestoneDefinition → Type 0
NotAfter d e = MilestoneDefinition.sort_order d ≤ MilestoneDefinition.sort_order e

insert-All :
    (P : MilestoneDefinition → Type 0) (d : MilestoneDefinition) (ds : List MilestoneDefinition)
    → P d
    → All P ds
    → All P (insert d ds)
insert-All P d [] p ps = (p, ps)
insert-All P d (e ∷ es) p (q, qs) = elim (Bool-cases (leb d.sort_order e.sort_order)) [
  | inl before ↦ rw before (p, (q, qs))
  | inr after ↦ rw after (q, insert-All P d es p qs)
]

sort-All :
    (P : MilestoneDefinition → Type 0) (ds : List MilestoneDefinition) → All P ds → All P (sort ds)
sort-All P [] ps = ps
sort-All P (d ∷ ds) (p, ps) = insert-All P d (sort ds) p (sort-All P ds ps)

insert-In :
    (x d : MilestoneDefinition) (ds : List MilestoneDefinition)
    → (x ≡ d) ⊎ In x ds
    → In x (insert d ds)
insert-In x d [] i = i
insert-In x d (e ∷ es) i = elim (Bool-cases (leb d.sort_order e.sort_order)) [
  | inl before ↦ rw before i
  | inr after ↦ rw after (elim i [
    | inl here ↦ inr (insert-In x d es (inl here))
    | inr (inl here) ↦ inl here
    | inr (inr there) ↦ inr (insert-In x d es (inr there))
  ])
]

sort-In : (x : MilestoneDefinition) (ds : List MilestoneDefinition) → In x ds → In x (sort ds)
sort-In x [] i = i
sort-In x (d ∷ ds) (inl here) = insert-In x d (sort ds) (inl here)
sort-In x (d ∷ ds) (inr there) = insert-In x d (sort ds) (inr (sort-In x ds there))

-- Each definition is not after any later one.
abbrev Sorted : List MilestoneDefinition → Type 0
Sorted [] = Unit
Sorted (d ∷ ds) = All (NotAfter d) ds × Sorted ds

All-weaker :
    (d e : MilestoneDefinition) (ds : List MilestoneDefinition)
    → NotAfter d e
    → All (NotAfter e) ds
    → All (NotAfter d) ds
All-weaker d e [] h ps = tt
All-weaker d e (f ∷ fs) h (p, ps) = (omega arith, All-weaker d e fs h ps)

insert-Sorted :
    (d : MilestoneDefinition) (ds : List MilestoneDefinition) → Sorted ds → Sorted (insert d ds)
insert-Sorted d [] s = (tt, tt)
insert-Sorted d (e ∷ es) (p, s) = elim (Bool-cases (leb d.sort_order e.sort_order)) [
  | inl before ↦
      let less : NotAfter d e = ground arith in rw before ((less, All-weaker d e es less p), (p, s))
  | inr after ↦ rw after (insert-All (NotAfter e) d es (ground arith) p, insert-Sorted d es s)
]

sort-Sorted : (ds : List MilestoneDefinition) → Sorted (sort ds)
sort-Sorted [] = tt
sort-Sorted (d ∷ ds) = insert-Sorted d (sort ds) (sort-Sorted ds)

module _ (dates : Dates) where
  -- The milestone's date, which counts only where there is one.
  abbrev pub date : MilestoneDefinition → ℕ
  date d = or_else (date_at dates d.key) 0

  abbrev pub IsDated : MilestoneDefinition → Type 0
  IsDated d = is_some (date_at dates d.key) ≡ true

  no_pair_error :
      (d e : MilestoneDefinition) (rest : List (String × String))
      → IsDated d
      → IsDated e
      → pair_errors (date_at dates d.key) (date_at dates e.key) d e ++ rest ≡ []
      → (date d ≤ date e) × (rest ≡ [])
  no_pair_error d e rest dd de h = (ground arith, ground arith)

  abbrev Ascending : List MilestoneDefinition → Type 0
  Ascending [] = Unit
  Ascending (d ∷ ds) = All (λ e. date d ≤ date e) ds × Ascending ds

  later_dates :
      (d e : MilestoneDefinition) (ds : List MilestoneDefinition)
      → date d ≤ date e
      → All (λ f. date e ≤ date f) ds
      → All (λ f. date d ≤ date f) ds
  later_dates d e [] h ps = tt
  later_dates d e (f ∷ fs) h (p, ps) = (omega arith, later_dates d e fs h ps)

  order_errors-Ascending :
      (ds : List MilestoneDefinition) → All IsDated ds → order_errors dates ds ≡ [] → Ascending ds
  unfolding order_errors
  order_errors-Ascending [] all_dated h = tt
  order_errors-Ascending (d ∷ []) all_dated h = (tt, tt)
  order_errors-Ascending (d ∷ e ∷ ds) (dd, (de, rest)) h =
      let (le, none_left) = no_pair_error d e (order_errors dates (e ∷ ds)) dd de h in
      let (least, up) = order_errors-Ascending (e ∷ ds) (de, rest) none_left in
      ((le, later_dates d e ds le least), (least, up))

  at_member :
      (P : MilestoneDefinition → Type 0) (x : MilestoneDefinition) (ds : List MilestoneDefinition)
      → All P ds
      → In x ds
      → P x
  at_member P x (d ∷ ds) (p, ps) (inl here) = subst P (sym here) p
  at_member P x (d ∷ ds) (p, ps) (inr there) = at_member P x ds ps there
  at_member P x [] ps i = absurd i

  dates_follow :
      (ds : List MilestoneDefinition)
      → Sorted ds
      → Ascending ds
      → (x y : MilestoneDefinition) → In x ds
      → In y ds
      → x.sort_order < y.sort_order
      → date x ≤ date y
  dates_follow [] s a x y i j less = absurd i
  dates_follow (d ∷ ds) (s, ss) (a, as_) x y (inl hx) (inl hy) less =
      let same : x.sort_order ≡ y.sort_order = ap MilestoneDefinition.sort_order (hx ∙ sym hy) in
      absurd (omega arith)
  dates_follow (d ∷ ds) (s, ss) (a, as_) x y (inl hx) (inr j) less =
      subst (λ v. date v ≤ date y) (sym hx) (at_member (λ e. date d ≤ date e) y ds a j)
  dates_follow (d ∷ ds) (s, ss) (a, as_) x y (inr i) (inl hy) less =
      let before : NotAfter d x = at_member (NotAfter d) x ds s i in
      let same : y.sort_order ≡ d.sort_order = ap MilestoneDefinition.sort_order hy in
      absurd (omega arith)
  dates_follow (d ∷ ds) (s, ss) (a, as_) x y (inr i) (inr j) less =
      dates_follow ds ss as_ x y i j less

  -- Where every milestone of the template has a date and the validation finds no error, a milestone
  -- that stands before another in the sort order has no later date than it.
  pub validate_milestone_date_order_sound :
      (definitions : List MilestoneDefinition)
      → All IsDated definitions
      → validate_milestone_date_order definitions dates ≡ []
      → (x y : MilestoneDefinition) → In x definitions
      → In y definitions
      → x.sort_order < y.sort_order
      → date x ≤ date y
  unfolding validate_milestone_date_order
  validate_milestone_date_order_sound definitions all_dated h x y i j less =
      dates_follow (sort definitions) (sort-Sorted definitions)
        (order_errors-Ascending (sort definitions) (sort-All IsDated definitions all_dated) h) x y
        (sort-In x definitions i) (sort-In y definitions j) less
