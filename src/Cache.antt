-- ===== src/Cache.antt =====
-- The cache manager, packages/cache/src/index.ts. Redis is the interface `Redis`: each call may
-- throw, and `lookup` is what it holds now, so that the expiry of an entry is outside an operation.
-- JSON, base64 and the sort of the filters are arguments.
pub mod Invalidation
mod Examples
use Prim.Native.String
use frontstead_kit.Prelude.{
  ◌≡◌, ℕ, String, Bool, true, false, ◌&&◌, ◌||◌, Option, none, some, List, [], ◌∷◌, any, str_eq,
  is_some, codes, if◌then◌else◌, ◌==◌, length, keep, not,
}

abbrev pub begins_with : List ℕ → List ℕ → Bool
begins_with [] cs = true
begins_with (p ∷ ps) [] = false
begins_with (p ∷ ps) (c ∷ cs) = p == c && begins_with ps cs

-- The keys of the pattern `prefix*`.
abbrev pub has_prefix : String → String → Bool
has_prefix prefix key = begins_with (codes prefix) (codes key)

abbrev pub includes : List String → String → Bool
includes keys key = any (λ k. str_eq k key) keys

-- The client of Redis, whose calls answer `none` where they throw.
pub record Redis : Type 1 where
  pub State : Type 0
  pub lookup : State → String → Option String
  pub get : State → String → Option (Option String)
  pub setex : State → String → ℕ → String → Option State
  pub del : State → List String → Option State
  -- the keys of the pattern `prefix*`
  pub keys : State → String → Option (List String)
  pub get-lookup : (s : State) (k : String) (v : Option String) → get s k ≡ some v → v ≡ lookup s k
  pub lookup-setex :
      (s s' : State) (k j v : String) (ttl : ℕ)
      → setex s k ttl v ≡ some s'
      → lookup s' j ≡ (if str_eq k j then some v else lookup s j)
  pub lookup-del :
      (s s' : State) (ks : List String) (j : String)
      → del s ks ≡ some s'
      → lookup s' j ≡ (if includes ks j then none else lookup s j)
  pub includes-keys :
      (s : State) (prefix : String) (ks : List String) (j : String)
      → keys s prefix ≡ some ks
      → includes ks j ≡ (has_prefix prefix j && is_some (lookup s j))

-- isConnected, and what Redis holds.
pub record Cache (State : Type 0) : Type 0 where
  pub is_connected : Bool
  pub redis : State

abbrev pub properties_ttl : ℕ
properties_ttl = 300

abbrev pub property_ttl : ℕ
property_ttl = 600

abbrev pub property_key : String → String
property_key id = String.◌++◌ "property:" id

-- A filter that is neither undefined, null nor empty.
abbrev pub is_set : String × Option String → Bool
is_set (key, none) = false
is_set (key, some value) = not (str_eq value "")

module _ (R : Redis) {Value : Type 0} (parse : String → Option Value) (stringify : Value → String)
    (sort : List (String × Option String) → List (String × Option String))
    (encode : List (String × Option String) → String) where
  -- `value ? JSON.parse(value) : null`, in the `try`.
  abbrev pub parsed : Option String → Option Value
  parsed none = none
  parsed (some text) = if str_eq text "" then none else parse text

  pub get : String → Cache R.State → Option Value
  get key c =
      if c.is_connected
      then (elim (R.get c.redis key) [ none ↦ none | some value ↦ parsed value ])
      else none

  pub set : String → Value → ℕ → Cache R.State → Cache R.State × Bool
  set key value ttl c =
      if c.is_connected
      then (elim (R.setex c.redis key ttl (stringify value)) [
        | none ↦ (c, false)
        | some s ↦ (record c { redis = s }, true)
      ])
      else (c, false)

  pub del : String → Cache R.State → Cache R.State × Bool
  del key c =
      if c.is_connected
      then (elim (R.del c.redis (key ∷ [])) [
        | none ↦ (c, false)
        | some s ↦ (record c { redis = s }, true)
      ])
      else (c, false)

  -- `if (keys.length > 0) await redis.del(...keys)`
  abbrev pub delete_keys : Cache R.State → List String → Cache R.State × ℕ
  delete_keys c [] = (c, 0)
  delete_keys c (k ∷ ks) = elim (R.del c.redis (k ∷ ks)) [
    | none ↦ (c, 0)
    | some s ↦ (record c { redis = s }, length (k ∷ ks))
  ]

  -- deletePattern of `prefix*`.
  pub delete_pattern : String → Cache R.State → Cache R.State × ℕ
  delete_pattern prefix c =
      if c.is_connected
      then (elim (R.keys c.redis prefix) [ none ↦ (c, 0) | some keys ↦ delete_keys c keys ])
      else (c, 0)

  abbrev pub filter_string : List (String × Option String) → String
  filter_string [] = ""
  filter_string (f ∷ fs) = String.◌++◌ ":" (encode (f ∷ fs))

  -- generatePropertiesKey
  pub generate_properties_key : List (String × Option String) → String
  generate_properties_key filters =
      String.◌++◌ "properties" (filter_string (keep is_set (sort filters)))

  pub get_properties : List (String × Option String) → Cache R.State → Option Value
  unfolding get generate_properties_key
  get_properties filters c = get (generate_properties_key filters) c

  pub set_properties : List (String × Option String) → Value → Cache R.State → Cache R.State × Bool
  unfolding set generate_properties_key
  set_properties filters value c = set (generate_properties_key filters) value properties_ttl c

  pub get_property : String → Cache R.State → Option Value
  unfolding get
  get_property id c = get (property_key id) c

  pub set_property : String → Value → Cache R.State → Cache R.State × Bool
  unfolding set
  set_property id value c = set (property_key id) value property_ttl c

  -- invalidateProperty
  pub invalidate_property : String → Cache R.State → Cache R.State
  unfolding del delete_pattern
  invalidate_property id c =
      let (c₁, _) = del (property_key id) c in
      let (c₂, _) = delete_pattern "properties:" c₁ in
      let (c₃, _) = delete_pattern "admin:stats" c₂ in c₃
