-- ===== src/Domains/Canonical.antt =====
-- The canonical domain of a portal.
use mathlib.Core.Path.{subst}
use frontstead_kit.Prelude.{
  ℕ, ◌≡◌, refl, sym, ap, ◌∙◌, inl, inr, String, Bool, true, false, Option, some, List, str_eq,
  eq_iff, arith, Bool-cases,
}
use frontstead_kit.Prelude.Fallible.{ok}
use frontstead_kit.Db.{Table, Bulk, find-put_self}
use frontstead_kit.Domains.{
  Domain, active, create_domain, verify_domain, set_canonical_domain, remove_domain, make_canonical,
  activate, set_flag,
}
use frontstead_kit.Domains.Outcomes.{
  unset, create_domain-inv, verify_domain-inv, remove_domain-inv, set_canonical_domain-inv,
  make_canonical-eq-put, canonical_row,
}

module _ (T : Table Domain) (B : Bulk T) (portals : String → Bool) (taken : T.State → List ℕ → Bool)
    (trim lower : List ℕ → List ℕ) (resolve_txt : List ℕ → Option (List (List (List ℕ)))) where
  -- A canonical domain is active, and a portal has at most one.
  pub record IsWellFormed (s : T.State) : Type 0 where
    pub is_live :
        (j : String) (d : Domain) → T.find s j ≡ some d → d.canonical ≡ true → d.status ≡ active
    pub unique :
        (i j : String) (d e : Domain)
        → T.find s i ≡ some d
        → T.find s j ≡ some e
        → d.canonical ≡ true
        → e.canonical ≡ true
        → d.portal_id ≡ e.portal_id
        → i ≡ j

  -- Every canonical row of `s'` was one of `s` before, of the same portal, and is active.
  abbrev pub Comes : T.State → T.State → Type 0
  Comes s s' =
      (j : String) (e : Domain)
      → T.find s' j ≡ some e
      → e.canonical ≡ true
      → (d : Domain) × (T.find s j ≡ some d)
        × (d.canonical ≡ true)
        × (d.portal_id ≡ e.portal_id)
        × (d.status ≡ active → e.status ≡ active)

  Comes-IsWellFormed : (s s' : T.State) → Comes s s' → IsWellFormed s → IsWellFormed s'
  Comes-IsWellFormed s s' c h = record {
    is_live = λ j e found flag.
        let (d, held, was, _, live) = c j e found flag in live (h.is_live j d held was);
    unique = λ i j e f found found' flag flag' same.
        let (d, held, was, portal, _) = c i e found flag in
        let (d', held', was', portal', _) = c j f found' flag' in
        h.unique i j d d' held held' was was' (portal ∙ same ∙ sym portal');
  }

  create-Comes :
      (s : T.State) (id : String) (r : Domain) → r.canonical ≡ false → Comes s (T.put s id r)
  create-Comes s id r plain j e found flag = elim (Bool-cases (str_eq id j)) [
    | inl same ↦ absurd (ground (arith, T.find-put s id j r))
    | inr other ↦ (e, ground (arith, T.find-put s id j r), flag, refl, λ h. h)
  ]

  activate-Comes :
      (s : T.State) (id : String) (d : Domain) (now : ℕ)
      → T.find s id ≡ some d
      → Comes s (T.put s id (activate now d))
  activate-Comes s id d now held j e found flag = elim (Bool-cases (str_eq id j)) [
    | inl same ↦
        let here : id ≡ j = ground (arith, eq_iff id j) in
        let after : activate now d ≡ e = ground (arith, T.find-put s id j (activate now d)) in
        (
          d,
          subst (λ k. T.find s k ≡ some d) here held,
          ap Domain.canonical after ∙ flag,
          ap Domain.portal_id after,
          λ h. sym (ap Domain.status after),
        )
    | inr other ↦ (e, ground (arith, T.find-put s id j (activate now d)), flag, refl, λ h. h)
  ]

  remove-Comes : (s : T.State) (id : String) → Comes s (T.remove s id)
  remove-Comes s id j e found flag = (e, ground (arith, T.find-remove s id j), flag, refl, λ h. h)

  make_canonical-IsWellFormed :
      (s : T.State) (portal domain : String) (d : Domain)
      → T.find s domain ≡ some d
      → d.portal_id ≡ portal
      → d.status ≡ active
      → IsWellFormed s
      → IsWellFormed (make_canonical T B portals taken trim lower resolve_txt s portal domain)
  make_canonical-IsWellFormed s portal domain d held owner live h =
      rw (make_canonical-eq-put T B portals taken trim lower resolve_txt s portal domain d held)
        (record {
          is_live = λ j e found flag.
              elim (canonical_row T B portals taken trim lower resolve_txt s portal domain j d e
                held owner found flag) [
                  | inl (_, _, same) ↦ same ∙ live
                  | inr (kept, _) ↦ h.is_live j e kept flag
                ];
          unique = λ i j e f found found' flag flag' same.
              elim (canonical_row T B portals taken trim lower resolve_txt s portal domain i d e
                held owner found flag) [
                  | inl (here, mine, _) ↦
                      elim (canonical_row T B portals taken trim lower resolve_txt s portal domain j
                        d f held owner found' flag') [
                          | inl (here', _, _) ↦ sym here ∙ here'
                          | inr (_, other) ↦ absurd (other (sym same ∙ mine))
                        ]
                  | inr (kept, other) ↦
                      elim (canonical_row T B portals taken trim lower resolve_txt s portal domain j
                        d f held owner found' flag') [
                          | inl (_, mine, _) ↦ absurd (other (same ∙ mine))
                          | inr (kept', _) ↦ h.unique i j e f kept kept' flag flag' same
                        ]
                ];
        })

  -- One successful operation of any portal.
  pub data Step (s : T.State) : T.State → Type 0 where
    creates :
        (portal : String) (raw token : List ℕ) (id : String) {s' : T.State}
        → create_domain T B portals taken trim lower resolve_txt portal raw token id s ≡ ok s'
        → Step s s'
    verifies :
        (portal domain : String) (now : ℕ) {s' : T.State}
        → verify_domain T B portals taken trim lower resolve_txt portal domain now s ≡ ok s'
        → Step s s'
    chooses :
        (portal domain : String) {s' : T.State}
        → set_canonical_domain T B portals taken trim lower resolve_txt portal domain s ≡ ok s'
        → Step s s'
    removes :
        (portal domain : String) {s' : T.State}
        → remove_domain T B portals taken trim lower resolve_txt portal domain s ≡ ok s'
        → Step s s'

  pub data Reach (s : T.State) : T.State → Type 0 where
    here : Reach s s
    next : {t u : T.State} → Reach s t → Step t u → Reach s u

  Step-IsWellFormed : {s s' : T.State} → Step s s' → IsWellFormed s → IsWellFormed s'
  Step-IsWellFormed {s} {s'} (creates portal raw token id e) h =
      rw (create_domain-inv T B portals taken trim lower resolve_txt portal raw token id s s' e)
        (Comes-IsWellFormed s _ (create-Comes s id _ refl) h)
  Step-IsWellFormed {s} {s'} (verifies portal domain now e) h =
      elim (verify_domain-inv T B portals taken trim lower resolve_txt portal domain now s s' e) [
        | inl same ↦ rw same h
        | inr (d, held, same) ↦
            rw same (Comes-IsWellFormed s _ (activate-Comes s domain d now held) h)
      ]
  Step-IsWellFormed {s} {s'} (chooses portal domain e) h =
      let (d, held, owner, live, same) =
        set_canonical_domain-inv T B portals taken trim lower resolve_txt portal domain s s' e in
      rw same (make_canonical-IsWellFormed s portal domain d held owner live h)
  Step-IsWellFormed {s} {s'} (removes portal domain e) h =
      rw (remove_domain-inv T B portals taken trim lower resolve_txt portal domain s s' e)
        (Comes-IsWellFormed s _ (remove-Comes s domain) h)

  -- Whatever operations succeed, and in whatever order, a canonical domain is active and a portal
  -- has at most one.
  pub Reach-IsWellFormed : {s s' : T.State} → IsWellFormed s → Reach s s' → IsWellFormed s'
  Reach-IsWellFormed h here = h
  Reach-IsWellFormed h (next r step) = Step-IsWellFormed step (Reach-IsWellFormed h r)

  -- A domain that was made canonical is its portal's, active and canonical, and no other domain of
  -- this portal is canonical any more.
  pub set_canonical_domain_sole :
      (portal domain : String) (s s' : T.State)
      → set_canonical_domain T B portals taken trim lower resolve_txt portal domain s ≡ ok s'
      → ((d : Domain) × (T.find s' domain ≡ some d)
          × (d.portal_id ≡ portal)
          × (d.status ≡ active)
          × (d.canonical ≡ true))
        × ((j : String) (e : Domain)
            → T.find s' j ≡ some e
            → e.portal_id ≡ portal
            → e.canonical ≡ true
            → domain ≡ j)
  set_canonical_domain_sole portal domain s s' e =
      let (d, held, owner, live, same) =
        set_canonical_domain-inv T B portals taken trim lower resolve_txt portal domain s s' e in
      rw
        (
          same,
          make_canonical-eq-put T B portals taken trim lower resolve_txt s portal domain d held,
        )
        (
          (
            set_flag true (unset T B portals taken trim lower resolve_txt portal d),
            find-put_self T _ domain _,
            ground arith,
            ground arith,
            refl,
          ),
          λ j f found mine flag.
              elim (canonical_row T B portals taken trim lower resolve_txt s portal domain j d f
                held owner found flag) [
                  | inl (there, _, _) ↦ there
                  | inr (_, other) ↦ absurd (other mine)
                ],
        )
