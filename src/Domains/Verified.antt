-- ===== src/Domains/Verified.antt =====
-- What the verification of a domain needs, and that it can be repeated.
use mathlib.Core.Path.{subst}
use mathlib.Core.List.{Memᴰ}
use mathlib.Core.List.Memᴰ.{head, tail}
use frontstead_kit.Prelude.{
  ℕ, ◌≡◌, ◌≢◌, refl, ◌⊎◌, ◌||◌, inl, inr, String, Bool, true, Option, none, some, List, [], ◌∷◌,
  ◌++◌, any, codes, eq_iff, arith, Option-cases, Bool-cases,
}
use frontstead_kit.Prelude.Fallible.{ok}
use frontstead_kit.Db.{Table, Bulk, find-put_self}
use frontstead_kit.Domains.{
  Domain, DomainStatus, verify_domain, activate, is_active, is_verified, has_token,
  verification_txt_record_name, active, verified, join, eq_codes,
}

abbrev pub is_live : DomainStatus → Bool
is_live status = is_active status || is_verified status

-- A text that is the chunks one after the other.
abbrev pub Joins : List (List ℕ) → List ℕ → Type 0
Joins [] text = text ≡ []
Joins (c ∷ cs) text = (rest : List ℕ) × (text ≡ c ++ rest) × Joins cs rest

-- An answer of the resolver with a record that is the token, whose chunks it joins.
pub record Holds (answer : Option (List (List (List ℕ)))) (token : List ℕ) : Type 0 where
  pub records : List (List (List ℕ))
  pub answered : answer ≡ some records
  pub chunks : List (List ℕ)
  pub listed : Memᴰ chunks records
  pub joined : Joins chunks token

join-Joins : (cs : List (List ℕ)) → Joins cs (join cs)
join-Joins [] = refl
join-Joins (c ∷ cs) = (join cs, refl, join-Joins cs)

equal_codes : (xs ys : List ℕ) → eq_codes xs ys ≡ true → xs ≡ ys
equal_codes [] [] h = refl
equal_codes [] (d ∷ ds) h = absurd (ground (arith, h))
equal_codes (c ∷ cs) [] h = absurd (ground (arith, h))
equal_codes (c ∷ cs) (d ∷ ds) h =
    let first : c ≡ d = ground (arith, h) in let rest = equal_codes cs ds (ground (arith, h)) in cc

found_record :
    (records : List (List (List ℕ))) (token : List ℕ)
    → any (λ chunks. eq_codes (join chunks) token) records ≡ true
    → (chunks : List (List ℕ)) × Memᴰ chunks records × Joins chunks token
found_record [] token h = absurd (ground (arith, h))
found_record (cs ∷ records) token h = elim (Bool-cases (eq_codes (join cs) token)) [
  | inl same ↦
      (cs, head refl, subst (λ t. Joins cs t) (equal_codes (join cs) token same) (join-Joins cs))
  | inr other ↦
      let (chunks, listed, joined) = found_record records token (ground (arith, other, h)) in
      (chunks, tail listed, joined)
]

has_token-Holds :
    (answer : Option (List (List (List ℕ)))) (token : List ℕ)
    → has_token answer token ≡ true
    → Holds answer token
unfolding has_token
has_token-Holds none token h = absurd (ground (arith, h))
has_token-Holds (some records) token h =
    let (chunks, listed, joined) = found_record records token h in
    record { records = records; answered = refl; chunks = chunks; listed = listed; joined = joined }

module _ (T : Table Domain) (B : Bulk T) (portals : String → Bool) (taken : T.State → List ℕ → Bool)
    (trim lower : List ℕ → List ℕ) (resolve_txt : List ℕ → Option (List (List (List ℕ)))) where
  -- Only the row under `domain` has changed: it is active, and verified at this time.
  pub record IsActivated (domain : String) (now : ℕ) (d : Domain) (s s' : T.State) : Type 0 where
    pub row : Domain
    pub stored : T.find s' domain ≡ some row
    pub is_active : row.status ≡ active
    pub verified_at : row.verified_at ≡ some now
    pub activated_at : row.activated_at ≡ some now
    pub same_portal : row.portal_id ≡ d.portal_id
    pub same_hostname : row.hostname ≡ d.hostname
    pub same_token : row.verification_token ≡ d.verification_token
    pub same_canonical : row.canonical ≡ d.canonical
    pub others : (j : String) → domain ≢ j → T.find s' j ≡ T.find s j

  activate-IsActivated :
      (domain : String) (now : ℕ) (d : Domain) (s : T.State)
      → IsActivated domain now d s (T.put s domain (activate now d))
  activate-IsActivated domain now d s = record {
    row = activate now d;
    stored = find-put_self T s domain (activate now d);
    is_active = refl;
    verified_at = refl;
    activated_at = refl;
    same_portal = refl;
    same_hostname = refl;
    same_token = refl;
    same_canonical = refl;
    others = λ j h. ground (arith, T.find-put s domain j (activate now d), eq_iff domain j, h);
  }

  verify_domain-inv :
      (portal domain : String) (now : ℕ) (s s' : T.State)
      → verify_domain T B portals taken trim lower resolve_txt portal domain now s ≡ ok s'
      → (d : Domain) × (T.find s domain ≡ some d)
        × (d.portal_id ≡ portal)
        × (((is_live d.status ≡ true) × (s' ≡ s))
            ⊎ ((has_token
                    (resolve_txt (verification_txt_record_name d.hostname))
                    d.verification_token
                  ≡ true)
                × (s' ≡ T.put s domain (activate now d))))
  unfolding verify_domain
  verify_domain-inv portal domain now s s' h = elim (Option-cases (T.find s domain)) [
    | inl e ↦ ground arith
    | inr (d, e) ↦ (
      d,
      e,
      ground (arith, eq_iff d.portal_id portal),
      elim (Bool-cases (is_live d.status)) [
        | inl done ↦ inl (done, ground arith)
        | inr open_ ↦ inr (ground arith, ground arith)
      ],
    )
  ]

  live_status :
      (status : DomainStatus) → is_live status ≡ true → (status ≡ active) ⊎ (status ≡ verified)
  live_status status h = ground (arith, h)

  -- A verification that succeeds found the portal's domain. Either it was active or verified and
  -- nothing changes, or the resolver answered for the challenge name with a record that is the
  -- domain's token, and this domain alone becomes active, at this time.
  pub verify_domain-has_token :
      (portal domain : String) (now : ℕ) (s s' : T.State)
      → verify_domain T B portals taken trim lower resolve_txt portal domain now s ≡ ok s'
      → (d : Domain) × (T.find s domain ≡ some d)
        × (d.portal_id ≡ portal)
        × ((((d.status ≡ active) ⊎ (d.status ≡ verified)) × (s' ≡ s))
            ⊎ (Holds
                  (resolve_txt (codes "_frontstead-challenge." ++ d.hostname))
                  d.verification_token
                × IsActivated domain now d s s'))
  verify_domain-has_token portal domain now s s' h =
      let (d, held, owner, how) = verify_domain-inv portal domain now s s' h in
      (
        d,
        held,
        owner,
        elim how [
          | inl (live, same) ↦ inl (live_status d.status live, same)
          | inr (token, same) ↦ inr (
            has_token-Holds (resolve_txt (verification_txt_record_name d.hostname))
                d.verification_token token,
            rw same (activate-IsActivated domain now d s),
          )
        ],
      )

  live-verify_domain :
      (portal domain : String) (now : ℕ) (s : T.State) (d : Domain)
      → T.find s domain ≡ some d
      → d.portal_id ≡ portal
      → is_live d.status ≡ true
      → verify_domain T B portals taken trim lower resolve_txt portal domain now s ≡ ok s
  unfolding verify_domain
  live-verify_domain portal domain now s d held owner live =
      ground (arith, eq_iff d.portal_id portal)

  -- A verification that succeeded can be repeated at any time, with no need of the DNS record, and
  -- changes nothing more.
  pub verify_domain_again :
      (portal domain : String) (now later : ℕ) (s s' : T.State)
      → verify_domain T B portals taken trim lower resolve_txt portal domain now s ≡ ok s'
      → verify_domain T B portals taken trim lower resolve_txt portal domain later s' ≡ ok s'
  verify_domain_again portal domain now later s s' h =
      let (d, held, owner, how) = verify_domain-inv portal domain now s s' h in
      elim how [
        | inl (live, same) ↦ rw same (live-verify_domain portal domain later s d held owner live)
        | inr (_, same) ↦ rw same (
            live-verify_domain portal domain later _ (activate now d) (find-put_self T s domain _)
              owner refl)
      ]
