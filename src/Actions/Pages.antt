-- ===== src/Actions/Pages.antt =====
-- The pages of the queue.
use frontstead_kit.Prelude.{
  ℕ, zero, suc, ◌+◌, ◌-◌, ◌*◌, ◌≤◌, ◌≡◌, refl, ap, ◌∙◌, List, [], ◌∷◌, ◌++◌, length, take, drop,
  arith,
}
use frontstead_kit.Actions.{page_of, total_pages}

enough : (total limit : ℕ) → 1 ≤ limit → total ≤ total_pages total limit * limit
enough total limit h = omega arith

module _ {A : Type 0} where
  -- The first `n` pages, one after the other.
  abbrev pub pages : ℕ → ℕ → List A → List A
  pages zero limit rows = []
  pages (suc n) limit rows = pages n limit rows ++ page_of (suc n) limit rows

  take-append-take :
      (m n k : ℕ) (xs : List A) → k ≡ m + n → take m xs ++ take n (drop m xs) ≡ take k xs
  take-append-take zero n k xs h = ap (λ i. take i xs) (omega arith)
  take-append-take (suc m) n zero xs h = absurd (omega arith)
  take-append-take (suc m) zero (suc k) [] h = refl
  take-append-take (suc m) (suc n) (suc k) [] h = refl
  take-append-take (suc m) n (suc k) (x ∷ xs) h =
      ap (λ ys. x ∷ ys) (take-append-take m n k xs (omega arith))

  take_all : (n : ℕ) (xs : List A) → length xs ≤ n → take n xs ≡ xs
  take_all zero [] h = refl
  take_all zero (x ∷ xs) h = absurd (omega arith)
  take_all (suc n) [] h = refl
  take_all (suc n) (x ∷ xs) h = ap (λ ys. x ∷ ys) (take_all n xs (omega arith))

  pages-eq-take : (n limit k : ℕ) (rows : List A) → k ≡ n * limit → pages n limit rows ≡ take k rows
  pages-eq-take zero limit zero rows h = refl
  pages-eq-take zero limit (suc k) rows h = absurd (omega arith)
  pages-eq-take (suc n) limit k rows h =
      let same : suc n - 1 ≡ n = omega arith in
      rw (pages-eq-take n limit (n * limit) rows refl, same)
        (take-append-take (n * limit) limit k rows (omega arith))

  -- With a limit of at least one row, the pages from 1 to the last show each row of the queue once and
  -- in its order.
  pub pages-eq-rows :
      (limit : ℕ) (rows : List A)
      → 1 ≤ limit
      → pages (total_pages (length rows) limit) limit rows ≡ rows
  pages-eq-rows limit rows h =
      pages-eq-take (total_pages (length rows) limit) limit
        (total_pages (length rows) limit * limit) rows refl
      ∙ take_all (total_pages (length rows) limit * limit) rows (enough (length rows) limit h)
