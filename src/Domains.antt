-- ===== src/Domains.antt =====
-- The custom domains of a portal, apps/api/src/services/portalDomainService.ts, with the columns of
-- `PortalDomain` in packages/db/prisma/schema.prisma. The portals, the DNS answers, the random token,
-- the unique index on host names and JavaScript's `trim` and `toLowerCase` are arguments.
pub mod Canonical
pub mod Verified
mod Examples
pub mod Outcomes
use frontstead_kit.Prelude.{
  ℕ, String, Bool, true, false, not, ◌&&◌, ◌||◌, Option, none, some, List, [], ◌∷◌, ◌++◌, str_eq,
  if◌then◌else◌, ltb, leb, ◌==◌, any, all, length, codes,
}
use frontstead_kit.Prelude.Fallible.{Result, ok, err, ◌>>=◌, ◌>>◌, refuse_if}
use frontstead_kit.Db.{Table, Bulk}

pub data Kind : Type 0 where
  apex www subdomain : Kind

pub data DomainStatus : Type 0 where
  pending verified ssl_pending active failed removed : DomainStatus

pub record Domain : Type 0 where
  pub portal_id : String
  pub hostname : List ℕ
  pub kind : Kind
  pub verification_token : List ℕ
  pub status : DomainStatus
  pub canonical : Bool
  pub verified_at : Option ℕ
  pub activated_at : Option ℕ

abbrev dot : ℕ
dot = 46

abbrev dash : ℕ
dash = 45

abbrev pub eq_codes : List ℕ → List ℕ → Bool
eq_codes [] [] = true
eq_codes [] (d ∷ ds) = false
eq_codes (c ∷ cs) [] = false
eq_codes (c ∷ cs) (d ∷ ds) = c == d && eq_codes cs ds

abbrev onto_first : ℕ → List (List ℕ) → List (List ℕ)
onto_first c [] = (c ∷ []) ∷ []
onto_first c (l ∷ ls) = (c ∷ l) ∷ ls

-- `hostname.split('.')`
abbrev pub split_dots : List ℕ → List (List ℕ)
split_dots [] = [] ∷ []
split_dots (c ∷ cs) = let rest = split_dots cs in if c == dot then [] ∷ rest else onto_first c rest

-- `[a-z0-9-]`
abbrev is_label_char : ℕ → Bool
is_label_char c = (leb 97 c && leb c 122) || (leb 48 c && leb c 57) || c == dash

abbrev starts_dash : List ℕ → Bool
starts_dash [] = false
starts_dash (c ∷ cs) = c == dash

abbrev ends_dash : List ℕ → Bool
ends_dash [] = false
ends_dash (c ∷ []) = c == dash
ends_dash (c ∷ d ∷ cs) = ends_dash (d ∷ cs)

-- `(?!-)[a-z0-9-]{1,63}(?<!-)`
abbrev pub is_label : List ℕ → Bool
is_label l =
    leb 1 (length l)
    && leb (length l) 63
    && all is_label_char l
    && not (starts_dash l)
    && not (ends_dash l)

-- HOSTNAME_RE: two labels or more.
unfoldable pub is_hostname : List ℕ → Bool
is_hostname h = leb 2 (length (split_dots h)) && all is_label (split_dots h)

-- classifyHostname
unfoldable pub classify_hostname : List ℕ → Kind
classify_hostname h = elim (split_dots h) [
  | [] ↦ apex
  | l ∷ ls ↦
      if eq_codes l (codes "www") then www else if leb (length (l ∷ ls)) 2 then apex else subdomain
]

-- `replace(/\.$/, '')`
unfoldable pub drop_dot : List ℕ → List ℕ
drop_dot [] = []
drop_dot (c ∷ []) = if c == dot then [] else c ∷ []
drop_dot (c ∷ d ∷ cs) = c ∷ drop_dot (d ∷ cs)

abbrev pub join : List (List ℕ) → List ℕ
join [] = []
join (c ∷ cs) = c ++ join cs

-- verificationTxtRecordName
abbrev pub verification_txt_record_name : List ℕ → List ℕ
verification_txt_record_name hostname = codes "_frontstead-challenge." ++ hostname

abbrev pub is_removed : DomainStatus → Bool
is_removed removed = true
is_removed _ = false

abbrev pub is_active : DomainStatus → Bool
is_active active = true
is_active _ = false

abbrev pub is_verified : DomainStatus → Bool
is_verified verified = true
is_verified _ = false

-- The records that the resolver gives; `none` is an error, read as no records.
unfoldable pub has_token : Option (List (List (List ℕ))) → List ℕ → Bool
has_token none token = false
has_token (some records) token = any (λ chunks. eq_codes (join chunks) token) records

-- The row that createDomain writes.
abbrev pub new_domain : String → List ℕ → List ℕ → Domain
new_domain portal hostname token = record {
  portal_id = portal;
  hostname = hostname;
  kind = classify_hostname hostname;
  verification_token = token;
  status = pending;
  canonical = false;
  verified_at = none;
  activated_at = none;
}

abbrev pub activate : ℕ → Domain → Domain
activate now d = record d { status = active; verified_at = some now; activated_at = some now }

abbrev pub of_portal : String → Domain → Bool
of_portal portal d = str_eq d.portal_id portal && d.canonical

abbrev pub set_flag : Bool → Domain → Domain
set_flag b d = record d { canonical = b }

module _ (T : Table Domain) (B : Bulk T) (portals : String → Bool) (taken : T.State → List ℕ → Bool)
    (trim lower : List ℕ → List ℕ) (resolve_txt : List ℕ → Option (List (List (List ℕ)))) where
  -- findFirst by key and portal, and the 404.
  abbrev pub find_domain : T.State → (portal domain : String) → Result Domain
  find_domain s portal domain = elim (T.find s domain) [
    | none ↦ err 404 "Domain not found"
    | some d ↦ if str_eq d.portal_id portal then ok d else err 404 "Domain not found"
  ]

  -- createDomain; `id` is the key that the database gives the new row.
  pub create_domain :
      (portal : String) (raw : List ℕ) (token : List ℕ) (id : String) → T.State → Result T.State
  create_domain portal raw token id s =
      let hostname = drop_dot (lower (trim raw)) in
      refuse_if (not (is_hostname hostname)) 400
        "Enter a valid domain hostname, e.g. example.com or www.example.com."
      >> refuse_if (not (portals portal)) 404 "Portal not found"
      >> refuse_if (taken s hostname) 409 "This domain is already registered to a portal."
      >> ok (T.put s id (new_domain portal hostname token))

  pub verify_domain : (portal domain : String) → ℕ → T.State → Result T.State
  verify_domain portal domain now s = do
    d ← find_domain s portal domain
    refuse_if (is_removed d.status) 400 "Domain has been removed"
    if is_active d.status || is_verified d.status
        then ok s
        else refuse_if
            (not (
              has_token (resolve_txt (verification_txt_record_name d.hostname))
                d.verification_token))
            422 "DNS TXT record not found."
          >> ok (T.put s domain (activate now d))

  -- The two updates of setCanonicalDomain, in one database transaction.
  abbrev pub make_canonical : T.State → (portal domain : String) → T.State
  make_canonical s portal domain =
      let cleared = B.update_many s (of_portal portal) (set_flag false) in
      elim (T.find cleared domain) [ none ↦ s | some d ↦ T.put cleared domain (set_flag true d) ]

  pub set_canonical_domain : (portal domain : String) → T.State → Result T.State
  set_canonical_domain portal domain s = do
    d ← find_domain s portal domain
    refuse_if (not (is_active d.status)) 400
        "Domain must be verified and active before it can be canonical"
    ok (make_canonical s portal domain)

  pub remove_domain : (portal domain : String) → T.State → Result T.State
  remove_domain portal domain s = do d ← find_domain s portal domain; ok (T.remove s domain)
