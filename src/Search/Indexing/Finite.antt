-- ===== src/Search/Indexing/Finite.antt =====
-- A table of listings and a search service that meet the laws of Search.Indexing: rows in a list,
-- the latest first, and a function from ids.
use frontstead_kit.Prelude.{
  ℕ, ◌≡◌, refl, sym, ap, ◌∙◌, ◌⊎◌, inl, inr, String, Bool, true, false, ◌&&◌, Option, none, some,
  List, [], ◌∷◌, str_eq, eq_iff, eq_refl, if◌then◌else◌, arith, Bool-cases,
}
use text.Mathlib.Text.{starts_with}
use frontstead_kit.Search.Indexing.{
  ListingRow, Listings, Typesense, PropertyDocument, done, broken, is_broken,
}
pub use frontstead_kit.Search.Indexing.RowList.{
  find_row, remove_rows, find-remove_rows, list_table, all_ids, select, drop_row,
}
use frontstead_kit.Search.Indexing.RowList.{select_sound, select-none, drop_id, all_ids_fresh}

abbrev pub of_property : String → (ListingRow ℕ → Bool) → ListingRow ℕ → Bool
of_property property_id test l = str_eq l.property_id property_id && test l

abbrev pub has_key : String → ListingRow ℕ → Bool
has_key key l = elim l.listing_key [ none ↦ false | some k ↦ str_eq k key ]

abbrev pub slugs_from : String → List (String × ListingRow ℕ) → List String
slugs_from prefix [] = []
slugs_from prefix ((k, l) ∷ s) = elim l.slug [
  | none ↦ slugs_from prefix s
  | some slug ↦
      let rest = slugs_from prefix s in if starts_with slug prefix then slug ∷ rest else rest
]

some_inj : {A : Type 0} (x y : A) → some x ≡ some y → x ≡ y
some_inj x y e = cc

owner :
    (p : String) (test : ListingRow ℕ → Bool) (l : ListingRow ℕ)
    → of_property p test l ≡ true
    → l.property_id ≡ p
owner p test l e = ground (arith, eq_iff l.property_id p, e)

tested :
    (p : String) (test : ListingRow ℕ → Bool) (l : ListingRow ℕ)
    → of_property p test l ≡ true
    → test l ≡ true
tested p test l e = ground (arith, e)

untested :
    (p : String) (test : ListingRow ℕ → Bool) (l : ListingRow ℕ)
    → l.property_id ≡ p
    → of_property p test l ≡ false
    → test l ≡ false
untested p test l same e = ground (arith, eq_iff l.property_id p, same, e)

module _ (s : List (String × ListingRow ℕ)) where
  pub keyed :
      (o : Option (String × ListingRow ℕ)) (test : ListingRow ℕ → Bool) (id : String)
      → select s test s ≡ o
      → drop_row o ≡ some id
      → (l : ListingRow ℕ) × (find_row s id ≡ some l)
  keyed none test id e f = absurd (ground (arith, f))
  keyed (some (k, l)) test id e f =
      (l, ap (find_row s) (sym (some_inj k id f)) ∙ (select_sound s test s k l e).0)

  pub newest_found :
      (o : Option (String × ListingRow ℕ)) (p : String) (test : ListingRow ℕ → Bool)
      (l : ListingRow ℕ)
      → select s (of_property p test) s ≡ o
      → drop_id o ≡ some l
      → (id : String) × (find_row s id ≡ some l) × (l.property_id ≡ p) × (test l ≡ true)
  newest_found none p test l e f = absurd (ground (arith, f))
  newest_found (some (k, m)) p test l e f =
      let (found, passed) = select_sound s (of_property p test) s k m e in
      (
        k,
        found ∙ f,
        owner p test l (ap (of_property p test) (sym (some_inj m l f)) ∙ passed),
        tested p test l (ap (of_property p test) (sym (some_inj m l f)) ∙ passed),
      )

  pub newest_missed :
      (o : Option (String × ListingRow ℕ)) (p : String) (test : ListingRow ℕ → Bool) (id : String)
      (l : ListingRow ℕ)
      → select s (of_property p test) s ≡ o
      → drop_id o ≡ none
      → find_row s id ≡ some l
      → l.property_id ≡ p
      → test l ≡ false
  newest_missed none p test id l e f stored same =
      untested p test l same (select-none s (of_property p test) s e id l l stored stored)
  newest_missed (some (k, m)) p test id l e f stored same = absurd (ground (arith, f))

abbrev pub finite_listings : Listings ℕ
finite_listings = record {
  T = list_table (ListingRow ℕ);
  id_of_key = λ s key. drop_row (select s (has_key key) s);
  fresh = λ s. all_ids s;
  slugs_with = λ s prefix. slugs_from prefix s;
  newest = λ s property_id test. drop_id (select s (of_property property_id test) s);
  id_of_key-find = λ s key id e. keyed s (select s (has_key key) s) (has_key key) id refl e;
  fresh-find = λ s. all_ids_fresh s;
  newest-find = λ s property_id test l e.
      newest_found s (select s (of_property property_id test) s) property_id test l refl e;
  newest-none = λ s property_id test e id l stored same.
      newest_missed s (select s (of_property property_id test) s) property_id test id l refl e
        stored same;
}

module _ {A : Type 0} (s : String → Option A) where
  pub deleted :
      (id j : String) (d : A) → (if str_eq id j then none else s j) ≡ some d → s j ≡ some d
  deleted id j d e = ground (arith, e)

  pub deleted_self : (id : String) → (if str_eq id id then none else s id) ≡ none
  deleted_self id = ground (arith, eq_refl id)

  new_row :
      (id j : String) (d e : A)
      → str_eq id j ≡ true
      → (if str_eq id j then some d else s j) ≡ some e
      → e ≡ d
  new_row id j d e same f = ground (arith, same, f)

  old_row :
      (id j : String) (d e : A)
      → str_eq id j ≡ false
      → (if str_eq id j then some d else s j) ≡ some e
      → s j ≡ some e
  old_row id j d e differs f = ground (arith, differs, f)

  pub upserted :
      (id j : String) (d e : A)
      → (if str_eq id j then some d else s j) ≡ some e
      → ((j ≡ id) × (e ≡ d)) ⊎ (s j ≡ some e)
  upserted id j d e f = elim (Bool-cases (str_eq id j)) [
    | inl same ↦ inl (sym ((eq_iff id j).0 same), new_row id j d e same f)
    | inr differs ↦ inr (old_row id j d e differs f)
  ]

  pub upserted_self : (id : String) (d : A) → (if str_eq id id then some d else s id) ≡ some d
  upserted_self id d = ground (arith, eq_refl id)

abbrev pub finite_typesense : Typesense ℕ
finite_typesense = record {
  State = String → Option (PropertyDocument ℕ);
  find = λ s j. s j;
  upsert = λ s d. (λ j. if str_eq d.id j then some d else s j, done);
  delete = λ s id. (λ j. if str_eq id j then none else s j, done);
  find-delete = λ s id j d e. deleted s id j d e;
  delete-gone = λ s id e. deleted_self s id;
  find-upsert = λ s d j e f. upserted s d.id j d e f;
  upsert-done = λ s d e. upserted_self s d.id d;
}

pub always_broken : is_broken (broken "timeout") ≡ false → ⊥
always_broken e = ground (arith, e)

-- A service whose deletions fail.
abbrev pub failing_typesense : Typesense ℕ
failing_typesense = record finite_typesense {
  delete = λ s id. (s, broken "timeout");
  find-delete = λ s id j d e. e;
  delete-gone = λ s id e. absurd (always_broken e);
}
