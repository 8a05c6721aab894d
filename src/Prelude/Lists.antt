-- ===== src/Prelude/Lists.antt =====
-- Lists measured by native numbers, under the library's names, and predicates over them.
use Prim.Native.Nat.{ℕ, zero, suc, ◌+◌, ◌-◌, ◌≤◌}
use mathlib.Core.Path.{◌≡◌, refl, sym}
use mathlib.Core.Logic.{◌⊎◌}
use mathlib.Core.Bool.{Bool, true, false, ◌&&◌, ◌||◌}
use mathlib.Core.List.{List, [], ◌∷◌, ◌++◌}
use native.Mathlib.Omega.{arith}
use frontstead_kit.Prelude.Tests.{if◌then◌else◌}

module _ {ℓ} {A : Type ℓ} where
  abbrev pub length : List A → ℕ
  length [] = 0
  length (x ∷ xs) = suc (length xs)

  abbrev pub take : ℕ → List A → List A
  take zero xs = []
  take (suc n) [] = []
  take (suc n) (x ∷ xs) = x ∷ take n xs

  abbrev pub drop : ℕ → List A → List A
  drop zero xs = xs
  drop (suc n) [] = []
  drop (suc n) (x ∷ xs) = drop n xs

  -- `filter` by a Boolean test, as the source writes it.
  abbrev pub keep : (A → Bool) → List A → List A
  keep p [] = []
  keep p (x ∷ xs) = if p x then x ∷ keep p xs else keep p xs

  abbrev pub any : (A → Bool) → List A → Bool
  any p [] = false
  any p (x ∷ xs) = p x || any p xs

  abbrev pub all : (A → Bool) → List A → Bool
  all p [] = true
  all p (x ∷ xs) = p x && all p xs

  pub length-append : (xs ys : List A) → length (xs ++ ys) ≡ length xs + length ys
  length-append [] ys = omega arith
  length-append (x ∷ xs) ys = omega (arith, length-append xs ys)

  pub length-take : (n : ℕ) (xs : List A) → length (take n xs) ≤ n
  length-take zero xs = omega arith
  length-take (suc n) [] = omega arith
  length-take (suc n) (x ∷ xs) = omega (arith, length-take n xs)

module _ {ℓ} {A : Type ℓ} where
  pub take-append-drop : (n : ℕ) (xs : List A) → take n xs ++ drop n xs ≡ xs
  take-append-drop zero xs = refl
  take-append-drop (suc n) [] = refl
  take-append-drop (suc n) (x ∷ xs) = rw (take-append-drop n xs)

  pub length-drop : (n : ℕ) (xs : List A) → length (drop n xs) ≡ length xs - n
  length-drop zero xs = omega arith
  length-drop (suc n) [] = omega arith
  length-drop (suc n) (x ∷ xs) = omega (arith, length-drop n xs)

module _ {ℓ κ} {A : Type ℓ} where
  abbrev pub All : (A → Type κ) → List A → Type κ
  All P [] = Unit
  All P (x ∷ xs) = P x × All P xs

-- Membership by recursion: `In a xs` is a chain of alternatives.
abbrev pub In : {A : Type 0} → A → List A → Type 0
In a [] = ⊥
In a (x ∷ xs) = (a ≡ x) ⊎ In a xs

module _ {ℓ} {A : Type ℓ} where
  pub any_congr : (f g : A → Bool) → ((a : A) → f a ≡ g a) → (xs : List A) → any f xs ≡ any g xs
  any_congr f g e [] = refl
  any_congr f g e (x ∷ xs) = rw (e x, any_congr f g e xs)

  pub any_or : (f g : A → Bool) (xs : List A) → any (λ a. f a || g a) xs ≡ (any f xs || any g xs)
  any_or f g [] = refl
  any_or f g (x ∷ xs) = rw (any_or f g xs) ground arith

  pub any_and : (f : A → Bool) (b : Bool) (xs : List A) → any (λ a. f a && b) xs ≡ (any f xs && b)
  any_and f b [] = refl
  any_and f b (x ∷ xs) = rw (any_and f b xs) ground arith

  pub any-false : (xs : List A) → any (λ a. false) xs ≡ false
  any-false [] = refl
  any-false (x ∷ xs) = any-false xs

  pub all-append : (f : A → Bool) (xs ys : List A) → all f (xs ++ ys) ≡ (all f xs && all f ys)
  all-append f [] ys = refl
  all-append f (x ∷ xs) ys = rw (all-append f xs ys) ground arith

module _ {ℓ κ} {A : Type ℓ} {B : Type κ} where
  -- Two existential tests commute.
  pub any_swap :
      (f : A → B → Bool) (xs : List A) (ys : List B)
      → any (λ x. any (f x) ys) xs ≡ any (λ y. any (λ x. f x y) xs) ys
  any_swap f [] ys = sym (any-false ys)
  any_swap f (x ∷ xs) ys = rw (any_swap f xs ys) (sym (any_or (f x) (λ y. any (λ a. f a y) xs) ys))
