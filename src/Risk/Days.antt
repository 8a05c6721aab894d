-- ===== src/Risk/Days.antt =====
-- Days until a date, in terms of its instant.
use frontstead_kit.Prelude.{
  ℕ, zero, suc, ◌+◌, ◌-◌, ◌*◌, ◌/◌, true, false, ltb, leb, ◌≡◌, refl, ◌∙◌, inl, inr, Bool-cases,
  arith,
}
use frontstead_kit.Prelude.Int.{pos, leb_ℤ}
use frontstead_kit.Risk.{days_away, negated, day}

negated_below : (q d : ℕ) → leb_ℤ (negated q) (pos d) ≡ true
negated_below zero d = ground arith
negated_below (suc q) d = ground arith

negated_from : (q : ℕ) → leb_ℤ (pos 0) (negated q) ≡ leb q 0
negated_from zero = refl
negated_from (suc q) = ground arith

later_date :
    (now date : ℕ) → ltb now date ≡ true → days_away now date ≡ pos ((date - now + (day - 1)) / day)
unfolding days_away
later_date now date h = rw (days_away, h) refl

earlier_date :
    (now date : ℕ) → ltb now date ≡ false → days_away now date ≡ negated ((now - date) / day)
unfolding days_away
earlier_date now date h = rw (days_away, h) refl

-- At most `d` days away: the date is not after the end of the `d` days.
pub days_away-below :
    (now date d : ℕ) → leb_ℤ (days_away now date) (pos d) ≡ leb date (now + d * 86_400_000)
days_away-below now date d = elim (Bool-cases (ltb now date)) [
  | inl after ↦ rw (later_date now date after) (ground (arith, after))
  | inr before ↦
      rw (earlier_date now date before)
        (negated_below ((now - date) / day) d ∙ ground (arith, before))
]

-- Not a day past.
pub days_away-from :
    (now date : ℕ) → leb_ℤ (pos 0) (days_away now date) ≡ ltb now (date + 86_400_000)
days_away-from now date = elim (Bool-cases (ltb now date)) [
  | inl after ↦ rw (later_date now date after) (ground (arith, after))
  | inr before ↦
      rw (earlier_date now date before) (negated_from ((now - date) / day) ∙ ground (arith, before))
]
