-- ===== src/Cache/Examples.antt =====
-- A Redis that holds a list of entries, with a list of properties and one property in it.
use mathlib.Core.Path.{subst}
use frontstead_kit.Prelude.{
  eq_iff, eq_refl, Bool-cases, inl, inr, arith, ◌≡◌, refl, String, Bool, true, false, ◌&&◌, Option,
  none, some, List, [], ◌∷◌, str_eq, is_some, if◌then◌else◌,
}
use frontstead_kit.Cache.{
  get_property, set_property, Redis, Cache, has_prefix, includes, get_property, set_property,
  get_properties, invalidate_property,
}
use frontstead_kit.Cache.Invalidation.{
  get_property-set_property, IsUp, invalidate_property_keys, get_property-set_property,
  get_properties-invalidate_property,
}

abbrev keep_keys : (String → Bool) → List (String × String) → List String
keep_keys p [] = []
keep_keys p ((k, v) ∷ es) = if p k then k ∷ keep_keys p es else keep_keys p es

abbrev find : List (String × String) → String → Option String
find [] j = none
find ((k, v) ∷ es) j = if str_eq k j then some v else find es j

abbrev without : List String → List (String × String) → List (String × String)
without ks [] = []
without ks ((k, v) ∷ es) = if includes ks k then without ks es else (k, v) ∷ without ks es

find-without :
    (ks : List String) (es : List (String × String)) (j : String)
    → find (without ks es) j ≡ (if includes ks j then none else find es j)
find-without ks [] j = ground arith
find-without ks ((k, v) ∷ es) j = elim (Bool-cases (str_eq k j)) [
  | inl same ↦
      let here : k ≡ j = ground (arith, eq_iff k j) in
      subst
        (λ i.
          find (without ks ((k, v) ∷ es)) i
          ≡ (if includes ks i then none else find ((k, v) ∷ es) i))
        here (ground (arith, find-without ks es k, eq_refl k))
  | inr other ↦ ground (arith, find-without ks es j)
]

includes-keep_keys :
    (p : String → Bool) (es : List (String × String)) (j : String)
    → includes (keep_keys p es) j ≡ (p j && is_some (find es j))
includes-keep_keys p [] j = ground arith
includes-keep_keys p ((k, v) ∷ es) j = elim (Bool-cases (str_eq k j)) [
  | inl same ↦
      let here : k ≡ j = ground (arith, eq_iff k j) in
      subst (λ i. includes (keep_keys p ((k, v) ∷ es)) i ≡ (p i && is_some (find ((k, v) ∷ es) i)))
        here (ground (arith, includes-keep_keys p es k, eq_refl k))
  | inr other ↦ ground (arith, includes-keep_keys p es j)
]

abbrev entries : Redis
entries = record {
  State = List (String × String);
  lookup = find;
  get = λ s k. some (find s k);
  setex = λ s k ttl v. some ((k, v) ∷ s);
  del = λ s ks. some (without ks s);
  keys = λ s prefix. some (keep_keys (has_prefix prefix) s);
  get-lookup = λ s k v e. ground arith;
  lookup-setex = λ s s' k j v ttl e. ground arith;
  lookup-del = λ s s' ks j e. ground (arith, find-without ks s j);
  includes-keys = λ s prefix ks j e. ground (arith, includes-keep_keys (has_prefix prefix) s j);
}

entries-IsUp : IsUp entries
entries-IsUp = record {
  get = λ s k. (_, refl);
  setex = λ s k ttl v. (_, refl);
  del = λ s ks. (_, refl);
  keys = λ s prefix. (_, refl);
}

abbrev parse : String → Option String
parse s = some s

abbrev same : String → String
same s = s

abbrev sort : List (String × Option String) → List (String × Option String)
sort fs = fs

abbrev encode : List (String × Option String) → String
encode fs = "e30="

abbrev c : Cache (Redis.State entries)
c = record {
  is_connected = true;
  redis =
      ("properties", "[1]")
      ∷ ("properties:e30=", "[1]")
      ∷ ("property:1", "{}")
      ∷ ("admin:stats", "{}")
      ∷ [];
}

invalidate_property_keys_example :
    find (Cache.redis (invalidate_property entries parse same sort encode "1" c)) "properties:e30="
    ≡ none
invalidate_property_keys_example =
    invalidate_property_keys entries parse same sort encode "1" "properties:e30=" c entries-IsUp
      refl

get_properties-invalidate_property_example :
    get_properties entries parse same sort encode []
      (invalidate_property entries parse same sort encode "1" c)
    ≡ get_properties entries parse same sort encode [] c
get_properties-invalidate_property_example =
    get_properties-invalidate_property entries parse same sort encode "1" c entries-IsUp refl refl

abbrev away : Cache (Redis.State entries)
away = record c { is_connected = false }

get_property-set_property_example :
    get_property entries parse same sort encode "1"
      (set_property entries parse same sort encode "1" "{}" c).0
    ≡ some "{}"
get_property-set_property_example =
    get_property-set_property entries parse same sort encode "1" "{}" c entries-IsUp refl refl refl
