-- ===== src/Readiness/Lawful.antt =====
-- What the public listings of a portal show.
use mathlib.Core.List.{Memᴰ}
use mathlib.Core.List.Memᴰ.{head, tail}
use frontstead_kit.Prelude.{
  ℕ, zero, suc, ◌-◌, ◌*◌, String, Bool, true, false, not, ◌&&◌, ◌||◌, Option, some, List, [], ◌∷◌,
  All, any, keep, map, take, drop, ltb, ◌≡◌, inl, inr, refl, ap, arith, Bool-cases,
}
use frontstead_kit.Search.Collection.{is_mls_public_display_enabled}
use frontstead_kit.Search.Indexing.{ListingRow, is_public, is_from_mls, is_active_status}
use frontstead_kit.Readiness.{
  at_least, at_most, on_board, PublishedConfig, PortalForReadiness, PortalRow, PortalFilters,
  CollectionRow, is_active_listing, matches_portal, get_portal_readiness, is_some_list,
  published_collections, db, passed, blocked, warning, is_given, is_blocked, GateState, pass_if,
  warn_unless, listing_gates, has_brokerage, count_matching_listings, readiness_gates, is_db,
  ListingMode, hidden, mock,
}
use frontstead_kit.Readiness.Listings.{
  PortalProperty, to_portal_property, included_listing, shared_media, head_of, get_portal_listings,
  page_number, page_limit,
}

module _ (env : Option String)
    (in_collection : (exclude_mls : Bool) → CollectionRow → PortalRow → Bool)
    (contains_text : String → PortalRow → Bool) (config : PublishedConfig) where
  -- An entry that shows one of the stored rows, in a published collection of the portal, by one of the
  -- row's own listings: it is active, displayable, of the portal's boards, in the range of prices and,
  -- if it is of the MLS, one that the IDX approval and the flag of public display both allow.
  pub record IsLawful (portal : PortalForReadiness) (filters : PortalFilters)
      (rows : List PortalRow) (entry : PortalProperty) : Type 0 where
    pub row : PortalRow
    pub stored : Memᴰ row rows
    pub collection : CollectionRow
    pub of_portal : Memᴰ collection portal.collections
    pub published : collection.is_published ≡ true
    pub collected : in_collection (not config.idx_approved) collection row ≡ true
    pub listing : ListingRow ℕ
    pub listed : Memᴰ listing row.listings
    pub shown :
        entry
        ≡ to_portal_property row
            (some listing)
            (shared_media env in_collection contains_text config)
    pub active : is_active_status listing.columns.status ≡ true
    pub displayable : listing.columns.idx_displayable ≡ true
    pub boarded : on_board config.board_ids listing.mls_board_id ≡ true
    pub not_below : at_least filters.min_price listing.columns.list_price ≡ true
    pub not_above : at_most filters.max_price listing.columns.list_price ≡ true
    pub approved :
        (not (is_from_mls listing.source)
          || (config.idx_approved && is_mls_public_display_enabled env))
        ≡ true

  test : PortalFilters → ListingRow ℕ → Bool
  test filters l =
      is_active_listing env config.board_ids filters.min_price filters.max_price config.idx_approved
        l

  record IsAllowed (filters : PortalFilters) (l : ListingRow ℕ) : Type 0 where
    is_active : is_active_status l.columns.status ≡ true
    is_displayable : l.columns.idx_displayable ≡ true
    is_boarded : on_board config.board_ids l.mls_board_id ≡ true
    is_not_below : at_least filters.min_price l.columns.list_price ≡ true
    is_not_above : at_most filters.max_price l.columns.list_price ≡ true
    is_approved :
        (not (is_from_mls l.source) || (config.idx_approved && is_mls_public_display_enabled env))
        ≡ true

  all_six :
      (act displayable display mls board idx low high : Bool)
      → ((act && displayable && (display || not mls)) && board && (idx || not mls) && low && high)
        ≡ true
      → (act ≡ true)
        × (displayable ≡ true)
        × (board ≡ true)
        × (low ≡ true)
        × (high ≡ true)
        × ((not mls || (idx && display)) ≡ true)
  all_six act displayable display mls board idx low high h = (
    ground (arith, h),
    ground (arith, h),
    ground (arith, h),
    ground (arith, h),
    ground (arith, h),
    ground (arith, h),
  )

  allowed :
      (filters : PortalFilters) (l : ListingRow ℕ) → test filters l ≡ true → IsAllowed filters l
  unfolding test is_active_listing is_public
  allowed filters l h =
      let (act, displayable, board, low, high, approved) =
        all_six (is_active_status l.columns.status) l.columns.idx_displayable
          (is_mls_public_display_enabled env) (is_from_mls l.source)
          (on_board config.board_ids l.mls_board_id) config.idx_approved
          (at_least filters.min_price l.columns.list_price)
          (at_most filters.max_price l.columns.list_price) h in
      record {
        is_active = act;
        is_displayable = displayable;
        is_boarded = board;
        is_not_below = low;
        is_not_above = high;
        is_approved = approved;
      }

  first_kept :
      {A : Type 0} (p : A → Bool) (xs : List A)
      → any p xs ≡ true
      → (a : A) × (head_of (keep p xs) ≡ some a) × Memᴰ a xs × (p a ≡ true)
  first_kept p [] h = absurd (ground (arith, h))
  first_kept p (x ∷ xs) h = elim (Bool-cases (p x)) [
    | inl yes_ ↦ (x, rw yes_ refl, head refl, yes_)
    | inr no_ ↦
        let (a, e, m, q) = first_kept p xs (ground (arith, no_, h)) in (a, rw no_ e, tail m, q)
  ]

  some_published :
      (cs : List CollectionRow) (row : PortalRow)
      → any (λ c. in_collection (not config.idx_approved) c row) (keep (λ c. c.is_published) cs)
        ≡ true
      → (c : CollectionRow) × Memᴰ c cs
        × (c.is_published ≡ true)
        × (in_collection (not config.idx_approved) c row ≡ true)
  some_published [] row h = absurd (ground (arith, h))
  some_published (c ∷ cs) row h =
      elim (Bool-cases (c.is_published && in_collection (not config.idx_approved) c row)) [
        | inl yes_ ↦ (c, head refl, ground (arith, yes_), ground (arith, yes_))
        | inr no_ ↦
            let (d, m, published, collected) = some_published cs row (ground (arith, no_, h)) in
            (d, tail m, published, collected)
      ]

  any_matching :
      (portal : PortalForReadiness) (filters : PortalFilters) (row : PortalRow)
      → matches_portal env in_collection contains_text config portal filters row ≡ true
      → (any (λ c. in_collection (not config.idx_approved) c row) (published_collections portal)
          ≡ true)
        × (any (test filters) row.listings ≡ true)
  unfolding matches_portal test
  any_matching portal filters row h = (ground (arith, h), ground (arith, h))

  abbrev entry_of : PortalFilters → PortalRow → PortalProperty
  entry_of filters row =
      to_portal_property row (included_listing env in_collection contains_text config filters row)
        (shared_media env in_collection contains_text config)

  entry-IsLawful :
      (portal : PortalForReadiness) (filters : PortalFilters) (rows : List PortalRow)
      (row : PortalRow)
      → Memᴰ row rows
      → matches_portal env in_collection contains_text config portal filters row ≡ true
      → IsLawful portal filters rows (entry_of filters row)
  unfolding test
  entry-IsLawful portal filters rows row stored h =
      let (in_published, in_listings) = any_matching portal filters row h in
      let (c, of_portal, published, collected) =
        some_published portal.collections row in_published in
      let (l, e, listed, ok) = first_kept (test filters) row.listings in_listings in
      let a = allowed filters l ok in
      record {
        row = row;
        stored = stored;
        collection = c;
        of_portal = of_portal;
        published = published;
        collected = collected;
        listing = l;
        listed = listed;
        shown =
            ap (λ o. to_portal_property row o (shared_media env in_collection contains_text config))
              e;
        active = a.is_active;
        displayable = a.is_displayable;
        boarded = a.is_boarded;
        not_below = a.is_not_below;
        not_above = a.is_not_above;
        approved = a.is_approved;
      }

  kept_entries :
      (portal : PortalForReadiness) (filters : PortalFilters) (rows some_rows : List PortalRow)
      → ((row : PortalRow) → Memᴰ row some_rows → Memᴰ row rows)
      → All
          (λ row. IsLawful portal filters rows (entry_of filters row))
          (keep (matches_portal env in_collection contains_text config portal filters) some_rows)
  kept_entries portal filters rows [] stored = tt
  kept_entries portal filters rows (row ∷ some_rows) stored =
      let later = kept_entries portal filters rows some_rows (λ r m. stored r (tail m)) in
      elim (Bool-cases (matches_portal env in_collection contains_text config portal filters row)) [
        | inl yes_ ↦
            rw yes_ (entry-IsLawful portal filters rows row (stored row (head refl)) yes_, later)
        | inr no_ ↦ rw no_ later
      ]

  All-map :
      {A B : Type 0} (P : B → Type 0) (f : A → B) (xs : List A)
      → All (λ x. P (f x)) xs
      → All P (map f xs)
  All-map P f [] all = tt
  All-map P f (x ∷ xs) (h, all) = (h, All-map P f xs all)

  All-drop : {A : Type 0} (P : A → Type 0) (n : ℕ) (xs : List A) → All P xs → All P (drop n xs)
  All-drop P zero xs all = all
  All-drop P (suc n) [] all = tt
  All-drop P (suc n) (x ∷ xs) (h, all) = All-drop P n xs all

  All-take : {A : Type 0} (P : A → Type 0) (n : ℕ) (xs : List A) → All P xs → All P (take n xs)
  All-take P zero xs all = tt
  All-take P (suc n) [] all = tt
  All-take P (suc n) (x ∷ xs) (h, all) = (h, All-take P n xs all)

  abbrev can_show : PortalForReadiness → List PortalRow → Bool
  can_show portal rows =
      (get_portal_readiness env in_collection contains_text config portal rows).can_show_listings
      && is_some_list (published_collections portal)

  -- Every entry of a page of public listings shows a stored property of a published collection of
  -- the portal by a stored listing of that property which is active, displayable, of the portal's boards
  -- and in the range of prices asked for; one of the MLS is shown only where the portal's IDX approval
  -- and the flag of public display both allow it.
  pub get_portal_listings-IsLawful :
      (portal : PortalForReadiness) (filters : PortalFilters) (page limit : Option ℕ)
      (rows : List PortalRow)
      → All
          (IsLawful portal filters rows)
          (get_portal_listings env in_collection contains_text config portal filters page limit
            rows).0
  unfolding get_portal_listings
  get_portal_listings-IsLawful portal filters page limit rows =
      let matching =
        keep (matches_portal env in_collection contains_text config portal filters) rows in
      let skip = (page_number page - 1) * page_limit limit in
      let P : PortalRow → Type 0 = λ row. IsLawful portal filters rows (entry_of filters row) in
      elim (Bool-cases (can_show portal rows)) [
        | inl shown ↦
            rw (get_portal_listings, shown)
              (All-map (IsLawful portal filters rows) (entry_of filters)
                (take (page_limit limit) (drop skip matching))
                (All-take P (page_limit limit) (drop skip matching)
                  (All-drop P skip matching (kept_entries portal filters rows rows (λ r m. m)))))
        | inr kept ↦ rw (get_portal_listings, kept) tt
      ]

  abbrev stopped : GateState → Bool
  stopped passed = false
  stopped blocked = true
  stopped warning = false

  five :
      (a b c d idx : Bool)
      → not (
          stopped (pass_if a)
          || (stopped (pass_if b)
              || (stopped (warn_unless idx)
                  || (stopped (pass_if c) || (stopped (pass_if d) || false)))))
        ≡ (a && b && c && d)
  five a b c d idx = ground arith

  -- What the source asks of a portal before it shows listings.
  abbrev pub is_ready : ListingMode → PortalForReadiness → List PortalRow → Bool
  is_ready mode portal rows =
      is_db env in_collection contains_text config mode
      && is_given portal.agent_email
      && has_brokerage env in_collection contains_text config portal
      && is_some_list (published_collections portal)
      && ltb 0 (count_matching_listings env in_collection contains_text config portal rows)

  mode_part :
      (mode : ListingMode) (portal : PortalForReadiness) (rows : List PortalRow)
      → (is_db env in_collection contains_text config mode
          && not (
              any (is_blocked env in_collection contains_text config) (
                record { id = "agent-email"; state = pass_if (is_given portal.agent_email) }
                ∷ record {
                  id = "brokerage";
                  state = pass_if (has_brokerage env in_collection contains_text config portal);
                }
                ∷ listing_gates env in_collection contains_text config mode portal rows)))
        ≡ is_ready mode portal rows
  mode_part hidden portal rows = refl
  mode_part mock portal rows = refl
  mode_part db portal rows =
      five (is_given portal.agent_email)
        (has_brokerage env in_collection contains_text config portal)
        (is_some_list (published_collections portal))
        (ltb 0 (count_matching_listings env in_collection contains_text config portal rows))
        config.idx_approved

  -- A portal shows listings when, and only when, its mode is that of the database, its agent's email
  -- and brokerage are given, a collection is published and some listing matches it: a missing IDX
  -- approval alone blocks nothing.
  pub get_portal_readiness-is_ready :
      (portal : PortalForReadiness) (rows : List PortalRow)
      → (get_portal_readiness env in_collection contains_text config portal rows).can_show_listings
        ≡ is_ready config.mode portal rows
  unfolding get_portal_readiness readiness_gates
  get_portal_readiness-is_ready portal rows = mode_part config.mode portal rows
