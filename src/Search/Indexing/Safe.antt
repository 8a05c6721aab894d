-- ===== src/Search/Indexing/Safe.antt =====
-- What the search index shows of the listings of the database.
use frontstead_kit.Prelude.{
  String, true, Option, none, some, ◌≡◌, ◌≢◌, inl, inr, refl, sym, ◌∙◌, ap, Option-cases, arith,
}
use frontstead_kit.Db.{Table, find-put_other}
use frontstead_kit.Search.Indexing.{
  PropertyRow, ListingRow, PropertyDocument, to_property_doc, Typesense, Listings, is_public,
  delete_document, upsert_document, reconcile_property_document,
}

module _ {Number : Type 0} (S : Typesense Number) (P : Table (PropertyRow Number))
    (L : Listings Number) (env : Option String) where
  -- A public listing of the property, other than the one under `away`, that the document shows.
  pub record IsShown (away : Option String) (ls : L.T.State) (property_id : String)
      (d : PropertyDocument Number) : Type 0 where
    pub listing_id : String
    pub listing : ListingRow Number
    pub property : PropertyRow Number
    pub stored : L.T.find ls listing_id ≡ some listing
    pub owned : listing.property_id ≡ property_id
    pub public : is_public env listing ≡ true
    pub other : some listing_id ≢ away
    pub shown : d ≡ to_property_doc property_id property listing

  -- Every document of the index shows a stored public listing of its property.
  pub record IsSafe (away : Option String) (ls : L.T.State) (s : S.State) : Type 0 where
    pub shown :
        (property_id : String) (d : PropertyDocument Number)
        → S.find s property_id ≡ some d
        → IsShown away ls property_id d

  some-none : (a : Option String) (id : String) → a ≡ none → some id ≢ a
  some-none a id e h = ground arith

  same_row :
      (ls : L.T.State) (i j : String) (l m : ListingRow Number)
      → L.T.find ls i ≡ some l
      → L.T.find ls j ≡ some m
      → some i ≡ some j
      → l ≡ m
  same_row ls i j l m e f same = cc

  absent_row :
      (ls : L.T.State) (i j : String) (l : ListingRow Number)
      → L.T.find ls i ≡ some l
      → L.T.find ls j ≡ none
      → some i ≢ some j
  absent_row ls i j l e f same = cc

  find-delete_document :
      (s : S.State) (property_id j : String) (d : PropertyDocument Number)
      → S.find (delete_document S s property_id).0 j ≡ some d
      → S.find s j ≡ some d
  unfolding delete_document
  find-delete_document s property_id j d found = S.find-delete s property_id j d found

  -- Forgetting which listing is away.
  pub IsSafe-weaker :
      (away : Option String) (ls : L.T.State) (s : S.State) → IsSafe away ls s → IsSafe none ls s
  IsSafe-weaker away ls s safe = record {
    shown = λ property_id d e.
        let i = safe.shown property_id d e in
        record {
          listing_id = i.listing_id;
          listing = i.listing;
          property = i.property;
          stored = i.stored;
          owned = i.owned;
          public = i.public;
          other = some-none none i.listing_id refl;
          shown = i.shown;
        };
  }

  -- A document fewer.
  pub delete-IsSafe :
      (away : Option String) (ls : L.T.State) (s : S.State) (property_id : String)
      → IsSafe away ls s
      → IsSafe away ls (delete_document S s property_id).0
  unfolding delete_document
  delete-IsSafe away ls s property_id safe = record {
    shown = λ j d e. safe.shown j d (S.find-delete s property_id j d e);
  }

  upsert-IsSafe :
      (ls : L.T.State) (s : S.State) (property_id : String) (p : PropertyRow Number)
      (l : ListingRow Number)
      → L.newest ls property_id (is_public env) ≡ some l
      → IsSafe none ls s
      → IsSafe none ls (upsert_document S s (to_property_doc property_id p l)).0
  unfolding upsert_document to_property_doc
  upsert-IsSafe ls s property_id p l e safe = record {
    shown = λ j d found. elim (S.find-upsert s (to_property_doc property_id p l) j d found) [
      | inr old ↦ safe.shown j d old
      | inl (same, is_new) ↦
          let (id, stored, owned, public) = L.newest-find ls property_id (is_public env) l e in
          record {
            listing_id = id;
            listing = l;
            property = p;
            stored = stored;
            owned = owned ∙ sym same;
            public = public;
            other = some-none none id refl;
            shown = is_new ∙ ap (λ k. to_property_doc k p l) (sym same);
          }
    ];
  }

  -- Whatever Typesense answers, reconciling leaves only public listings in the index.
  pub reconcile-IsSafe :
      (ps : P.State) (ls : L.T.State) (s : S.State) (property_id : String)
      → IsSafe none ls s
      → IsSafe none ls (reconcile_property_document S P L env ps ls s property_id).0
  unfolding reconcile_property_document
  reconcile-IsSafe ps ls s property_id safe = elim (Option-cases (P.find ps property_id)) [
    | inl absent ↦ rw absent (delete-IsSafe none ls s property_id safe)
    | inr (p, stored) ↦ elim (Option-cases (L.newest ls property_id (is_public env))) [
      | inl absent ↦ rw (stored, absent) (delete-IsSafe none ls s property_id safe)
      | inr (l, newest) ↦ rw (stored, newest) (upsert-IsSafe ls s property_id p l newest safe)
    ]
  ]

  delete_document-gone :
      (s : S.State) (property_id j : String) (d : PropertyDocument Number)
      → (delete_document S s property_id).1 ≡ none
      → j ≡ property_id
      → S.find (delete_document S s property_id).0 j ≢ some d
  unfolding delete_document
  delete_document-gone s property_id j d h same found =
      ground (arith, S.delete-gone s property_id, h, same, found)

  -- Once its document is deleted, a property's listings are away.
  pub delete_away :
      (ls : L.T.State) (s : S.State) (id : String) (l : ListingRow Number)
      → L.T.find ls id ≡ some l
      → (delete_document S s l.property_id).1 ≡ none
      → IsSafe none ls s
      → IsSafe (some id) ls (delete_document S s l.property_id).0
  delete_away ls s id l e h safe = record {
    shown = λ j d found.
        let i = safe.shown j d (find-delete_document s l.property_id j d found) in
        record {
          listing_id = i.listing_id;
          listing = i.listing;
          property = i.property;
          stored = i.stored;
          owned = i.owned;
          public = i.public;
          other = λ same.
              delete_document-gone s l.property_id j d h
                (sym i.owned
                  ∙ ap (λ r. r.property_id)
                      (same_row ls i.listing_id id i.listing l i.stored e same))
                found;
          shown = i.shown;
        };
  }

  -- A listing that is away may be written anew.
  pub put-IsSafe :
      (ls : L.T.State) (s : S.State) (id : String) (l : ListingRow Number)
      → IsSafe (some id) ls s
      → IsSafe (some id) (L.T.put ls id l) s
  put-IsSafe ls s id l safe = record {
    shown = λ j d found.
        let i = safe.shown j d found in
        record {
          listing_id = i.listing_id;
          listing = i.listing;
          property = i.property;
          stored =
              find-put_other L.T ls id i.listing_id l (λ same. i.other (ap some (sym same)))
              ∙ i.stored;
          owned = i.owned;
          public = i.public;
          other = i.other;
          shown = i.shown;
        };
  }

  -- A listing that is not stored is shown by no document.
  pub absent_away :
      (ls : L.T.State) (s : S.State) (id : String)
      → L.T.find ls id ≡ none
      → IsSafe none ls s
      → IsSafe (some id) ls s
  absent_away ls s id e safe = record {
    shown = λ j d found.
        let i = safe.shown j d found in
        record {
          listing_id = i.listing_id;
          listing = i.listing;
          property = i.property;
          stored = i.stored;
          owned = i.owned;
          public = i.public;
          other = λ same. absent_row ls i.listing_id id i.listing i.stored e same;
          shown = i.shown;
        };
  }
