-- ===== src/Db/Slugs/Fresh.antt =====
-- The end of the loop of generateUniquePropertySlug.
use Prim.Native.Char.{code}
use Prim.Native.String.{◌++◌, len, slice}
use text.Mathlib.TextPositions.{slice-append_right, len-append}
use frontstead_kit.Prelude.{
  ℕ, zero, suc, ◌+◌, ◌-◌, ◌*◌, ◌/◌, ◌%◌, ◌<◌, ◌≤◌, ◌≡◌, ◌≢◌, ◌⊎◌, inl, inr, refl, sym, ap, ◌∙◌,
  String, true, false, not, List, [], ◌∷◌, length, keep, ltb, ltb→lt, str_eq, eq_iff, if◌then◌else◌,
  arith, Bool-cases,
}
use frontstead_kit.Db.Slugs.{
  digit, digits_before, decimal, numbered, includes_slug, next_free, generate_property_slug,
  generate_unique_property_slug, hyphenated, undashed, cleaned, dashed, undashed_end,
}

slug_test :
    generate_property_slug "12 Main  St. - #4" "New York" "N.Y." ≡ "12-main-st-4-new-york-ny"
unfolding generate_property_slug hyphenated undashed cleaned dashed undashed_end
slug_test = refl

-- A text read as decimal digits.
read_from : ℕ → String → ℕ
read_from n String.[] = n
read_from n (String.◌∷◌ c s) = read_from (n * 10 + (code c - 48)) s

code-digit : (n : ℕ) → n < 10 → code (digit n) ≡ 48 + n
code-digit zero h = refl
code-digit (suc zero) h = refl
code-digit (suc (suc zero)) h = refl
code-digit (suc (suc (suc zero))) h = refl
code-digit (suc (suc (suc (suc zero)))) h = refl
code-digit (suc (suc (suc (suc (suc zero))))) h = refl
code-digit (suc (suc (suc (suc (suc (suc zero)))))) h = refl
code-digit (suc (suc (suc (suc (suc (suc (suc zero))))))) h = refl
code-digit (suc (suc (suc (suc (suc (suc (suc (suc zero)))))))) h = refl
code-digit (suc (suc (suc (suc (suc (suc (suc (suc (suc zero))))))))) h = refl
code-digit (suc (suc (suc (suc (suc (suc (suc (suc (suc (suc n)))))))))) h = omega (arith, h)

read_digit : (n : ℕ) → n < 10 → 0 + (code (digit n) - 48) ≡ n
read_digit n h = omega (arith, code-digit n h)

split_digit : (n : ℕ) → n / 10 * 10 + (code (digit (n % 10)) - 48) ≡ n
split_digit n = omega (arith, code-digit (n % 10) (omega arith))

smaller : (n fuel : ℕ) → n < suc fuel → ltb n 10 ≡ false → n / 10 < fuel
smaller n fuel h large = ground (arith, h, large)

read-digits_before :
    (fuel n : ℕ) (s : String) → n < fuel → read_from 0 (digits_before fuel n s) ≡ read_from n s
unfolding digits_before read_from
read-digits_before zero n s h = omega (arith, h)
read-digits_before (suc fuel) n s h = elim (Bool-cases (ltb n 10)) [
  | inl small ↦ rw small (ap (λ k. read_from k s) (read_digit n (ltb→lt n 10 small)))
  | inr large ↦
      rw
        (
          large,
          read-digits_before fuel (n / 10) (String.◌∷◌ (digit (n % 10)) s) (smaller n fuel h large),
        )
        (ap (λ k. read_from k s) (split_digit n))
]

decimal_injective : (m n : ℕ) → decimal m ≡ decimal n → m ≡ n
unfolding decimal read_from
decimal_injective m n e =
    sym (read-digits_before (suc m) m "" (omega arith))
    ∙ ap (read_from 0) e
    ∙ read-digits_before (suc n) n "" (omega arith)

same_length : (s t u : String) → s ++ t ≡ s ++ u → len t ≡ len u
same_length s t u e = omega (arith, ap len e, len-append s t, len-append s u)

append_cancel : (s t u : String) → s ++ t ≡ s ++ u → t ≡ u
append_cancel s t u e =
    sym (slice-append_right s t)
    ∙ ap (λ v. slice v (len s) (len s + len t)) e
    ∙ ap (λ k. slice (s ++ u) (len s) (len s + k)) (same_length s t u e)
    ∙ slice-append_right s u

numbered_injective : (base : String) (m n : ℕ) → numbered base m ≡ numbered base n → m ≡ n
unfolding numbered
numbered_injective base m n e = decimal_injective m n (
    append_cancel "-" (decimal m) (decimal n)
      (append_cancel base ("-" ++ decimal m) ("-" ++ decimal n) e))

numbered_other : (base : String) (n : ℕ) → numbered base n ≢ base
unfolding numbered
numbered_other base n e =
    omega (arith, ap len e, len-append base ("-" ++ decimal n), len-append "-" (decimal n))

-- The loop's answer depends on the slugs that it tries.
next_free_congr :
    (fuel : ℕ) (xs ys : List String) (base slug : String) (counter : ℕ)
    → includes_slug xs slug ≡ includes_slug ys slug
    → ((n : ℕ)
        → counter ≤ n
        → includes_slug xs (numbered base n) ≡ includes_slug ys (numbered base n))
    → next_free fuel xs base slug counter ≡ next_free fuel ys base slug counter
unfolding next_free
next_free_congr zero xs ys base slug counter e same = refl
next_free_congr (suc fuel) xs ys base slug counter e same =
    rw
      (
        e,
        next_free_congr fuel xs ys base (numbered base counter) (counter + 1)
            (same counter (omega arith)) (λ n h. same n (omega (arith, h))),
      )
      refl

-- The slugs other than one.
abbrev without : String → List String → List String
without slug xs = keep (λ x. not (str_eq slug x)) xs

includes_slug-without :
    (xs : List String) (slug other : String)
    → includes_slug (without slug xs) other
      ≡ (if str_eq slug other then false else includes_slug xs other)
includes_slug-without [] slug other = ground arith
includes_slug-without (x ∷ xs) slug other =
    ground
      (arith, includes_slug-without xs slug other, eq_iff slug other, eq_iff slug x, eq_iff other x)

length-without_le : (xs : List String) (slug : String) → length (without slug xs) ≤ length xs
length-without_le [] slug = omega arith
length-without_le (x ∷ xs) slug = ground (arith, length-without_le xs slug)

length-without :
    (xs : List String) (slug : String)
    → includes_slug xs slug ≡ true
    → length (without slug xs) < length xs
length-without [] slug h = ground (arith, h)
length-without (x ∷ xs) slug h =
    ground (arith, length-without xs slug, length-without_le xs slug, h)

-- A slug that the rest of the loop does not try again.
record IsPast (base slug : String) (counter : ℕ) : Type 0 where
  later : (n : ℕ) → counter ≤ n → slug ≢ numbered base n

-- What the loop answers: the slug it starts at, or a later one.
next_free_form :
    (fuel : ℕ) (xs : List String) (base slug : String) (counter : ℕ)
    → (next_free fuel xs base slug counter ≡ slug)
      ⊎ ((n : ℕ) × (counter ≤ n) × (next_free fuel xs base slug counter ≡ numbered base n))
unfolding next_free
next_free_form zero xs base slug counter = inl refl
next_free_form (suc fuel) xs base slug counter = elim (Bool-cases (includes_slug xs slug)) [
  | inr free ↦ inl (rw free refl)
  | inl taken ↦ elim (next_free_form fuel xs base (numbered base counter) (counter + 1)) [
    | inl first ↦ inr (counter, omega arith, rw taken first)
    | inr (n, h, e) ↦ inr (n, omega (arith, h), rw taken e)
  ]
]

-- The slugs other than one that the loop is past are the same.
kept :
    (xs : List String) (base slug : String) (counter : ℕ)
    → IsPast base slug counter
    → (n : ℕ) → counter ≤ n
    → includes_slug xs (numbered base n) ≡ includes_slug (without slug xs) (numbered base n)
kept xs base slug counter past n h = ground (
  arith,
  includes_slug-without xs slug (numbered base n),
  eq_iff slug (numbered base n),
  past.later n h,
)

past_answer :
    (fuel : ℕ) (xs : List String) (base slug : String) (counter : ℕ)
    → IsPast base slug counter
    → slug ≢ next_free fuel xs base (numbered base counter) (counter + 1)
past_answer fuel xs base slug counter past e =
    elim (next_free_form fuel xs base (numbered base counter) (counter + 1)) [
      | inl first ↦ past.later counter (omega arith) (e ∙ first)
      | inr (n, h, is_nth) ↦ past.later n (omega (arith, h)) (e ∙ is_nth)
    ]

includes_step :
    (xs : List String) (slug answer answer' : String)
    → slug ≢ answer
    → answer ≡ answer'
    → includes_slug (without slug xs) answer' ≡ false
    → includes_slug xs answer ≡ false
includes_step xs slug answer answer' other e free = ground (
  arith,
  includes_slug-without xs slug answer,
  eq_iff slug answer,
  other,
  ap (includes_slug (without slug xs)) e,
  free,
)

numbered-IsPast : (base : String) (counter : ℕ) → IsPast base (numbered base counter) (counter + 1)
numbered-IsPast base counter = record {
  later = λ n h e. omega (arith, h, numbered_injective base counter n e);
}

next_free-fresh :
    (fuel : ℕ) (xs : List String) (base slug : String) (counter : ℕ)
    → length xs < fuel
    → IsPast base slug counter
    → includes_slug xs (next_free fuel xs base slug counter) ≡ false
unfolding next_free
next_free-fresh zero xs base slug counter h past = ground (arith, h)
next_free-fresh (suc fuel) xs base slug counter h past = elim (Bool-cases (includes_slug xs slug)) [
  | inr free ↦ rw free free
  | inl taken ↦ rw taken (
      includes_step xs slug (next_free fuel xs base (numbered base counter) (counter + 1))
        (next_free fuel (without slug xs) base (numbered base counter) (counter + 1))
        (past_answer fuel xs base slug counter past)
        (next_free_congr fuel xs (without slug xs) base (numbered base counter) (counter + 1)
          (kept xs base slug counter past counter (omega arith))
          (λ n le. kept xs base slug counter past n (omega (arith, le))))
        (next_free-fresh fuel (without slug xs) base (numbered base counter) (counter + 1)
          (omega (arith, h, length-without xs slug taken)) (numbered-IsPast base counter)))
]

-- A property's slug is never one of those that exist already, and it is the slug of its address or
-- that slug with a number: the loop ends for want of existing slugs.
pub generate_unique_property_slug-fresh :
    (address city state : String) (existing : List String)
    → let slug = generate_unique_property_slug address city state existing in
      let base = generate_property_slug address city state in
      (includes_slug existing slug ≡ false)
      × ((slug ≡ base) ⊎ ((n : ℕ) × (1 ≤ n) × (slug ≡ numbered base n)))
unfolding generate_unique_property_slug
generate_unique_property_slug-fresh address city state existing =
    let base = generate_property_slug address city state in
    (
      next_free-fresh (suc (length existing)) existing base base 1 (omega arith)
          (record { later = λ n h e. numbered_other base n (sym e) }),
      next_free_form (suc (length existing)) existing base base 1,
    )
