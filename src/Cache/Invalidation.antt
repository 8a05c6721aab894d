-- ===== src/Cache/Invalidation.antt =====
-- What the cache keeps and forgets.
use mathlib.Core.Path.{subst}
use text.Mathlib.Text.{starts_with}
use text.Mathlib.TextPositions.{starts_with-append}
use frontstead_kit.Prelude.{
  eq_iff, ◌≡◌, ◌≢◌, ℕ, refl, sym, ap, ◌∙◌, String, Bool, true, false, ◌&&◌, ◌||◌, Option, none,
  some, List, [], ◌∷◌, str_eq, eq_refl, is_some, if◌then◌else◌, arith, Bool-cases, inl, inr,
}
use frontstead_kit.Cache.{
  Redis, Cache, has_prefix, includes, property_key, get, set, del, delete_pattern, delete_keys,
  parsed, generate_properties_key, get_properties, get_property, set_property, invalidate_property,
  property_ttl,
}

only_one :
    (b : Bool) (o : Option String) → (if b || false then none else o) ≡ (if b then none else o)
only_one true o = refl
only_one false o = refl

-- To forget the rows of a pattern that are there is to forget the pattern.
same_rows :
    (i b : Bool) (o : Option String)
    → i ≡ (b && is_some o)
    → (if i then none else o) ≡ (if b then none else o)
same_rows i true none h = ground arith
same_rows i true (some v) h = ground arith
same_rows i false o h = ground arith

module _ (R : Redis) where
  -- No call of Redis throws.
  pub record IsUp : Type 0 where
    pub get : (s : R.State) (k : String) → (v : Option String) × (R.get s k ≡ some v)
    pub setex :
        (s : R.State) (k : String) (ttl : ℕ) (v : String)
        → (s' : R.State) × (R.setex s k ttl v ≡ some s')
    pub del : (s : R.State) (ks : List String) → (s' : R.State) × (R.del s ks ≡ some s')
    pub keys : (s : R.State) (prefix : String) → (ks : List String) × (R.keys s prefix ≡ some ks)

module _ (R : Redis) {Value : Type 0} (parse : String → Option Value) (stringify : Value → String)
    (sort : List (String × Option String) → List (String × Option String))
    (encode : List (String × Option String) → String) where
  del_forgets :
      (key j : String) (c : Cache R.State)
      → IsUp R
      → c.is_connected ≡ true
      → ((del R parse stringify sort encode key c).0.is_connected ≡ true)
        × (R.lookup (del R parse stringify sort encode key c).0.redis j
            ≡ (if str_eq key j then none else R.lookup c.redis j))
  unfolding del
  del_forgets key j c up on =
      let (s', e) = up.del c.redis (key ∷ []) in
      rw (on, e)
        (on, R.lookup-del c.redis s' (key ∷ []) j e ∙ only_one (str_eq key j) (R.lookup c.redis j))

  delete_pattern_forgets :
      (prefix j : String) (c : Cache R.State)
      → IsUp R
      → c.is_connected ≡ true
      → ((delete_pattern R parse stringify sort encode prefix c).0.is_connected ≡ true)
        × (R.lookup (delete_pattern R parse stringify sort encode prefix c).0.redis j
            ≡ (if has_prefix prefix j then none else R.lookup c.redis j))
  unfolding delete_pattern
  delete_pattern_forgets prefix j c up on =
      let (ks, e) = up.keys c.redis prefix in
      rw (on, e) (forgets ks (R.includes-keys c.redis prefix ks j e))
    where
      forgets :
          (ks : List String)
          → includes ks j ≡ (has_prefix prefix j && is_some (R.lookup c.redis j))
          → ((delete_keys R parse stringify sort encode c ks).0.is_connected ≡ true)
            × (R.lookup (delete_keys R parse stringify sort encode c ks).0.redis j
                ≡ (if has_prefix prefix j then none else R.lookup c.redis j))
      forgets [] h = (on, same_rows false (has_prefix prefix j) (R.lookup c.redis j) h)
      forgets (k ∷ ks) h =
          let (s', e) = up.del c.redis (k ∷ ks) in
          rw (delete_keys, e)
            (
              on,
              R.lookup-del c.redis s' (k ∷ ks) j e
                  ∙ same_rows (includes (k ∷ ks) j) (has_prefix prefix j) (R.lookup c.redis j) h,
            )

  -- What invalidateProperty(id) is to forget: the property's own entry, the filtered lists and the
  -- statistics.
  abbrev pub is_forgotten : (id key : String) → Bool
  is_forgotten id key =
      str_eq (property_key id) key || has_prefix "properties:" key || has_prefix "admin:stats" key

  three :
      (a b d : Bool) (o : Option String)
      → (if d then none else (if b then none else (if a then none else o)))
        ≡ (if a || b || d then none else o)
  three a b d o = ground arith

  -- With Redis up, an invalidation forgets the property's entry, every key of `properties:*` and of
  -- `admin:stats*`, and keeps every other entry.
  pub invalidate_property_keys :
      (id key : String) (c : Cache R.State)
      → IsUp R
      → c.is_connected ≡ true
      → R.lookup (invalidate_property R parse stringify sort encode id c).redis key
        ≡ (if is_forgotten id key then none else R.lookup c.redis key)
  unfolding invalidate_property
  invalidate_property_keys id key c up on =
      let (on₁, first) = del_forgets (property_key id) key c up on in
      let (on₂, second) = delete_pattern_forgets "properties:" key _ up on₁ in
      let (on₃, third) = delete_pattern_forgets "admin:stats" key _ up on₂ in
      third
      ∙ rw (second, first)
          (three (str_eq (property_key id) key) (has_prefix "properties:" key)
            (has_prefix "admin:stats" key) (R.lookup c.redis key))

  get-lookup :
      (key : String) (c : Cache R.State)
      → IsUp R
      → c.is_connected ≡ true
      → get R parse stringify sort encode key c
        ≡ parsed R parse stringify sort encode (R.lookup c.redis key)
  unfolding get
  get-lookup key c up on =
      let (v, e) = up.get c.redis key in
      rw (on, e) (ap (parsed R parse stringify sort encode) (R.get-lookup c.redis key v e))

  -- With Redis up, what was stored for a property is what is read for it, if JSON gives the value
  -- back from a text that is not empty.
  pub get_property-set_property :
      (id : String) (value : Value) (c : Cache R.State)
      → IsUp R
      → c.is_connected ≡ true
      → parse (stringify value) ≡ some value
      → str_eq (stringify value) "" ≡ false
      → get_property R parse stringify sort encode id
          (set_property R parse stringify sort encode id value c).0
        ≡ some value
  unfolding get_property set_property set
  get_property-set_property id value c up on back filled =
      let (s', e) = up.setex c.redis (property_key id) property_ttl (stringify value) in
      let stored : R.lookup s' (property_key id) ≡ some (stringify value) =
        R.lookup-setex c.redis s' (property_key id) (property_key id) (stringify value) property_ttl
          e
        ∙ rw (eq_refl (property_key id)) refl in
      rw (on, e)
        (get-lookup (property_key id) (record c { redis = s' }) up on ∙ rw (stored, filled) back)

  no_filters :
      sort [] ≡ [] → generate_properties_key R parse stringify sort encode [] ≡ "properties"
  unfolding generate_properties_key
  no_filters plain = rw plain refl

  property_key-ne : (id : String) → property_key id ≢ "properties"
  property_key-ne id e =
      let prefixed : starts_with "properties" "property:" ≡ true =
        subst (λ s. starts_with s "property:" ≡ true) e (starts_with-append "property:" id) in
      absurd (cc prefixed)

  not_forgotten :
      (id : String) (o : Option String) → (if is_forgotten id "properties" then none else o) ≡ o
  not_forgotten id o = elim (Bool-cases (str_eq (property_key id) "properties")) [
    | inl same ↦ absurd (property_key-ne id (ground (arith, eq_iff (property_key id) "properties")))
    | inr other ↦ rw other refl
  ]

  invalidate_property_connected :
      (id : String) (c : Cache R.State)
      → IsUp R
      → c.is_connected ≡ true
      → (invalidate_property R parse stringify sort encode id c).is_connected ≡ true
  unfolding invalidate_property
  invalidate_property_connected id c up on =
      let (on₁, _) = del_forgets (property_key id) "" c up on in
      let (on₂, _) = delete_pattern_forgets "properties:" "" _ up on₁ in
      let (on₃, _) = delete_pattern_forgets "admin:stats" "" _ up on₂ in on₃

  -- With Redis up, the list of all properties, the one read without a filter, is not forgotten: after
  -- an invalidation it is read as before.
  pub get_properties-invalidate_property :
      (id : String) (c : Cache R.State)
      → IsUp R
      → c.is_connected ≡ true
      → sort [] ≡ []
      → get_properties R parse stringify sort encode []
          (invalidate_property R parse stringify sort encode id c)
        ≡ get_properties R parse stringify sort encode [] c
  unfolding get_properties
  get_properties-invalidate_property id c up on plain =
      let kept : R.lookup (invalidate_property R parse stringify sort encode id c).redis
            "properties"
          ≡ R.lookup c.redis "properties" =
        invalidate_property_keys id "properties" c up on ∙ not_forgotten id _ in
      rw (no_filters plain) (
        get-lookup "properties" (invalidate_property R parse stringify sort encode id c) up
          (invalidate_property_connected id c up on)
        ∙ rw kept (sym (get-lookup "properties" c up on)))

  -- Without a connection the cache is not there: reads give null, writes give false or 0, and Redis is
  -- not touched.
  pub offline :
      (id key : String) (value : Value) (ttl : ℕ) (c : Cache R.State)
      → c.is_connected ≡ false
      → (get R parse stringify sort encode key c ≡ none)
        × (set R parse stringify sort encode key value ttl c ≡ (c, false))
        × (del R parse stringify sort encode key c ≡ (c, false))
        × (delete_pattern R parse stringify sort encode key c ≡ (c, 0))
        × (invalidate_property R parse stringify sort encode id c ≡ c)
  unfolding get set del delete_pattern invalidate_property
  offline id key value ttl c off = (rw off refl, rw off refl, rw off refl, rw off refl, rw off refl)
