-- ===== src/Mls/Auth/Issued.antt =====
-- The answers of the endpoint that the tokens come from.
use frontstead_kit.Prelude.{
  ℕ, ◌≡◌, ◌≢◌, ◌⊎◌, inl, inr, ap, ◌∙◌, String, true, false, Option, ◌==◌, arith, Bool-cases,
}
use frontstead_kit.Mls.Auth.{
  TokenResponse, CachedToken, Flight, unused, flying, landed, set_at, token_of, header,
}

pub equal : (n k : ℕ) → (n == k) ≡ true → n ≡ k
equal n k e = ground (arith, e)

set_here :
    {A : Type 0} (f : ℕ → A) (n k : ℕ) (a b : A) → (n == k) ≡ true → set_at n a f k ≡ b → a ≡ b
set_here f n k a b same e = ground (arith, same, e)

set_there :
    {A : Type 0} (f : ℕ → A) (n k : ℕ) (a b : A) → (n == k) ≡ false → set_at n a f k ≡ b → f k ≡ b
set_there f n k a b differs e = ground (arith, differs, e)

pub at_set :
    {A : Type 0} (f : ℕ → A) (n k : ℕ) (a b : A)
    → set_at n a f k ≡ b
    → ((n ≡ k) × (a ≡ b)) ⊎ (f k ≡ b)
at_set f n k a b e = elim (Bool-cases (n == k)) [
  | inl same ↦ inl (equal n k same, set_here f n k a b same e)
  | inr differs ↦ inr (set_there f n k a b differs e)
]

module _ (buffer : Option ℕ) where
  -- A refresh whose answer the text or the token comes from.
  pub record IsIssued (flights : ℕ → Flight) (t : CachedToken) : Type 0 where
    pub flight : ℕ
    pub response : TokenResponse
    pub answered_at : ℕ
    pub answered : flights flight ≡ landed response answered_at
    pub token : t ≡ token_of buffer response answered_at

  -- Answers that stay.
  pub Stays : (ℕ → Flight) → (ℕ → Flight) → Type 0
  Stays f g = (n : ℕ) (r : TokenResponse) (now : ℕ) → f n ≡ landed r now → g n ≡ landed r now

  pub IsIssued-Stays :
      (f g : ℕ → Flight) (t : CachedToken) → Stays f g → IsIssued f t → IsIssued g t
  unfolding Stays
  IsIssued-Stays f g t stays i = record {
    flight = i.flight;
    response = i.response;
    answered_at = i.answered_at;
    answered = stays i.flight i.response i.answered_at i.answered;
    token = i.token;
  }

  pub set-Stays :
      (f : ℕ → Flight) (n : ℕ) (a : Flight)
      → ((r : TokenResponse) (now : ℕ) → f n ≢ landed r now)
      → Stays f (set_at n a f)
  unfolding Stays
  set-Stays f n a other k r now e = elim (Bool-cases (n == k)) [
    | inl same ↦ absurd (other r now (ap f (equal n k same) ∙ e))
    | inr differs ↦ rw differs e
  ]

  pub unused_answer : (a : Flight) (r : TokenResponse) (now : ℕ) → a ≡ unused → a ≢ landed r now
  unused_answer a r now e f = ground (arith, e, f)

  pub flying_answer : (a : Flight) (r : TokenResponse) (now : ℕ) → a ≡ flying → a ≢ landed r now
  flying_answer a r now e f = ground (arith, e, f)

  pub headers_stay :
      (f g : ℕ → Flight) (h : String)
      → Stays f g
      → (t : CachedToken) × (h ≡ header buffer t) × IsIssued f t
      → (t : CachedToken) × (h ≡ header buffer t) × IsIssued g t
  headers_stay f g h stays (t, e, i) = (t, e, IsIssued-Stays f g t stays i)
