-- ===== src/Domains/Outcomes.antt =====
-- What each successful operation on the domains leaves of the rows.
use frontstead_kit.Prelude.{
  ℕ, ◌≡◌, ◌≢◌, refl, ◌∙◌, ◌⊎◌, inl, inr, String, Bool, true, false, ◌||◌, Option, some, List,
  str_eq, eq_iff, arith, if◌then◌else◌, Option-cases, Bool-cases,
}
use frontstead_kit.Prelude.Fallible.{ok}
use frontstead_kit.Db.{Table, Bulk}
use frontstead_kit.Domains.{
  Domain, active, create_domain, verify_domain, set_canonical_domain, remove_domain, make_canonical,
  activate, of_portal, set_flag, is_active, is_verified, new_domain, drop_dot,
}

module _ (T : Table Domain) (B : Bulk T) (portals : String → Bool) (taken : T.State → List ℕ → Bool)
    (trim lower : List ℕ → List ℕ) (resolve_txt : List ℕ → Option (List (List (List ℕ)))) where
  pub create_domain-inv :
      (portal : String) (raw token : List ℕ) (id : String) (s s' : T.State)
      → create_domain T B portals taken trim lower resolve_txt portal raw token id s ≡ ok s'
      → s' ≡ T.put s id (new_domain portal (drop_dot (lower (trim raw))) token)
  unfolding create_domain
  create_domain-inv portal raw token id s s' h = ground arith

  pub verify_domain-inv :
      (portal domain : String) (now : ℕ) (s s' : T.State)
      → verify_domain T B portals taken trim lower resolve_txt portal domain now s ≡ ok s'
      → (s' ≡ s)
        ⊎ ((d : Domain) × (T.find s domain ≡ some d) × (s' ≡ T.put s domain (activate now d)))
  unfolding verify_domain
  verify_domain-inv portal domain now s s' h = elim (Option-cases (T.find s domain)) [
    | inl e ↦ ground arith
    | inr (d, e) ↦ elim (Bool-cases (is_active d.status || is_verified d.status)) [
      | inl done ↦ inl (ground arith)
      | inr open_ ↦ inr (d, e, ground arith)
    ]
  ]

  pub remove_domain-inv :
      (portal domain : String) (s s' : T.State)
      → remove_domain T B portals taken trim lower resolve_txt portal domain s ≡ ok s'
      → s' ≡ T.remove s domain
  unfolding remove_domain
  remove_domain-inv portal domain s s' h = ground arith

  pub set_canonical_domain-inv :
      (portal domain : String) (s s' : T.State)
      → set_canonical_domain T B portals taken trim lower resolve_txt portal domain s ≡ ok s'
      → (d : Domain) × (T.find s domain ≡ some d)
        × (d.portal_id ≡ portal)
        × (d.status ≡ active)
        × (s' ≡ make_canonical T B portals taken trim lower resolve_txt s portal domain)
  unfolding set_canonical_domain
  set_canonical_domain-inv portal domain s s' h = elim (Option-cases (T.find s domain)) [
    | inl e ↦ ground arith
    | inr (d, e) ↦ (d, e, ground (arith, eq_iff d.portal_id portal), ground arith, ground arith)
  ]

  -- The domain's row after the first update.
  abbrev pub unset : String → Domain → Domain
  unset portal d = if of_portal portal d then set_flag false d else d

  pub make_canonical-eq-put :
      (s : T.State) (portal domain : String) (d : Domain)
      → T.find s domain ≡ some d
      → make_canonical T B portals taken trim lower resolve_txt s portal domain
        ≡ T.put
            (B.update_many s (of_portal portal) (set_flag false))
            domain
            (set_flag true (unset portal d))
  make_canonical-eq-put s portal domain d held =
      let after : T.find (B.update_many s (of_portal portal) (set_flag false)) domain
          ≡ some (unset portal d) =
        B.find-update_many s (of_portal portal) (set_flag false) domain ∙ rw held refl in
      rw (after, make_canonical) refl

  -- A canonical row after setCanonicalDomain: the new one, or one of another portal.
  pub canonical_row :
      (s : T.State) (portal domain j : String) (d e : Domain)
      → T.find s domain ≡ some d
      → d.portal_id ≡ portal
      → T.find
          (T.put
            (B.update_many s (of_portal portal) (set_flag false))
            domain
            (set_flag true (unset portal d)))
          j
        ≡ some e
      → e.canonical ≡ true
      → ((domain ≡ j) × (e.portal_id ≡ portal) × (e.status ≡ d.status))
        ⊎ ((T.find s j ≡ some e) × (e.portal_id ≢ portal))
  canonical_row s portal domain j d e held owner found flag =
      let cleared = B.update_many s (of_portal portal) (set_flag false) in
      let put = T.find-put cleared domain j (set_flag true (unset portal d)) in
      let row = B.find-update_many s (of_portal portal) (set_flag false) j in
      elim (Bool-cases (str_eq domain j)) [
        | inl same ↦ inl (ground (arith, eq_iff domain j), ground (arith, put), ground (arith, put))
        | inr other ↦ elim (Option-cases (T.find s j)) [
          | inl gone ↦ absurd (ground (arith, put, row))
          | inr (c, kept) ↦
              inr (ground (arith, put, row), ground (arith, put, row, eq_iff c.portal_id portal))
        ]
      ]
