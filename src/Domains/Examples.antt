-- ===== src/Domains/Examples.antt =====
-- One portal with two domains.
use frontstead_kit.Prelude.{
  ◌++◌, ℕ, ◌≡◌, refl, ◌⊎◌, String, Bool, false, Option, none, some, List, [], ◌∷◌, str_eq, codes,
}
use frontstead_kit.Prelude.Fallible.{Result, ok, err}
use frontstead_kit.Db.{Table, Bulk, finite_map, finite_bulk}
use frontstead_kit.Domains.{
  Domain, active, verified, verify_domain, create_domain, set_canonical_domain, is_hostname,
  drop_dot, classify_hostname, has_token,
}
use frontstead_kit.Domains.Canonical.{
  IsWellFormed, here, next, creates, verifies, chooses, Reach-IsWellFormed,
}
use frontstead_kit.Domains.Verified.{Holds, IsActivated, verify_domain-has_token}

abbrev T : Table Domain
T = finite_map Domain

abbrev B : Bulk T
B = finite_bulk Domain

abbrev portals : String → Bool
portals p = str_eq p "p1"

abbrev taken : Table.State T → List ℕ → Bool
taken s h = false

abbrev same : List ℕ → List ℕ
same cs = cs

abbrev resolve : List ℕ → Option (List (List (List ℕ)))
resolve name = some ((codes "to" ∷ codes "ken" ∷ []) ∷ [])

abbrev no_rows : Table.State T
no_rows j = none

abbrev the : Table.State T → Result (Table.State T) → Table.State T
the s (ok s') = s'
the s (err status message) = s

abbrev created : Table.State T
created = the no_rows (
    create_domain T B portals taken same same resolve "p1" (codes "www.example.com.")
      (codes "token") "d1" no_rows)

abbrev proved : Table.State T
proved = the created (verify_domain T B portals taken same same resolve "p1" "d1" 5 created)

abbrev chosen : Table.State T
chosen = the proved (set_canonical_domain T B portals taken same same resolve "p1" "d1" proved)

creating :
    create_domain T B portals taken same same resolve "p1"
      (codes "www.example.com.")
      (codes "token")
      "d1"
      no_rows
    ≡ ok created
unfolding create_domain is_hostname drop_dot classify_hostname
creating = refl

verifying : verify_domain T B portals taken same same resolve "p1" "d1" 5 created ≡ ok proved
unfolding create_domain is_hostname drop_dot classify_hostname verify_domain has_token
verifying = refl

choosing : set_canonical_domain T B portals taken same same resolve "p1" "d1" proved ≡ ok chosen
unfolding create_domain is_hostname drop_dot classify_hostname verify_domain has_token
    set_canonical_domain
choosing = refl

empty-IsWellFormed : IsWellFormed T B portals taken same same resolve no_rows
empty-IsWellFormed = record {
  is_live = λ j d found flag. absurd (cc found);
  unique = λ i j d e found found' flag flag' p. absurd (cc found);
}

Reach-IsWellFormed_example : IsWellFormed T B portals taken same same resolve chosen
Reach-IsWellFormed_example =
    Reach-IsWellFormed T B portals taken same same resolve empty-IsWellFormed (
      next
        (next (next here (creates "p1" (codes "www.example.com.") (codes "token") "d1" creating))
          (verifies "p1" "d1" 5 verifying))
        (chooses "p1" "d1" choosing))

verify_domain-has_token_example :
    (d : Domain) × (Table.find T created "d1" ≡ some d)
    × (d.portal_id ≡ "p1")
    × ((((d.status ≡ active) ⊎ (d.status ≡ verified)) × (proved ≡ created))
        ⊎ (Holds (resolve (codes "_frontstead-challenge." ++ d.hostname)) d.verification_token
            × IsActivated T B portals taken same same resolve "d1" 5 d created proved))
verify_domain-has_token_example =
    verify_domain-has_token T B portals taken same same resolve "p1" "d1" 5 created proved verifying
