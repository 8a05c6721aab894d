-- ===== src/Classification.antt =====
-- The classification of properties: evaluateClassifier of
-- packages/portal-config/src/classification.ts and packages/db/classification.ts. An expression is one
-- that the schema accepts. How JavaScript compares two values as texts and its floating-point
-- geometry are arguments; evidence is left out.
pub mod Rows
pub mod Kept
pub mod Runs
pub mod Paged
mod Examples
use frontstead_kit.Prelude.{
  ℕ, String, Bool, true, false, not, ◌&&◌, ◌||◌, Option, none, some, List, [], ◌∷◌, any, all, map,
  str_eq, if◌then◌else◌,
}

pub data Scalar : Type 0 where
  bool : Bool → Scalar
  number : ℕ → Scalar
  text : String → Scalar

-- An attribute of a property.
pub data Attribute : Type 0 where
  undefined null : Attribute
  scalar : Scalar → Attribute
  list : List Scalar → Attribute

pub data Condition : Type 0 where
  equals : (field : String) → (value : Scalar) → Condition
  exists : (field : String) → Condition
  includes_any : (field : String) → (values : List Scalar) → Condition

pub data Operator : Type 0 where
  every any_of_them : Operator

mutual
  pub data ClassifierExpression (Number : Type 0) : Type 0 where
    fields : List Condition → ClassifierExpression Number
    place : (cities zip_codes subdivisions : List String) → ClassifierExpression Number
    radius : (latitude longitude miles : Number) → ClassifierExpression Number
    polygon : List (Number × Number) → ClassifierExpression Number
    composite : Operator → Definitions Number → ClassifierExpression Number

  pub data Definitions (Number : Type 0) : Type 0 where
    nil : Definitions Number
    cons : ClassifierExpression Number → Definitions Number → Definitions Number

pub record ClassifierProperty (Number : Type 0) : Type 0 where
  pub latitude : Option Number
  pub longitude : Option Number
  pub city : String
  pub zip_code : String
  pub subdivision : Option String
  pub attributes : String → Attribute

-- JavaScript's comparison of values as texts, `same`, and the two tests of a position.
pub record Comparison (Number : Type 0) : Type 0 where
  pub same : Attribute → Scalar → Bool
  pub is_near : (latitude longitude miles lat lon : Number) → Bool
  pub in_polygon : (lat lon : Number) → List (Number × Number) → Bool

abbrev pub is_present : Attribute → Bool
is_present undefined = false
is_present null = false
is_present (scalar (text s)) = not (str_eq s "")
is_present (scalar (bool b)) = true
is_present (scalar (number n)) = true
is_present (list xs) = true

-- `Array.isArray(value) ? value : value == null ? [] : [value]`
abbrev pub values_of : Attribute → List Attribute
values_of undefined = []
values_of null = []
values_of (scalar s) = scalar s ∷ []
values_of (list xs) = map scalar xs

abbrev pub text_attribute : Option String → Attribute
text_attribute none = null
text_attribute (some s) = scalar (text s)

module _ {Number : Type 0} (C : Comparison Number) where
  abbrev pub holds : ClassifierProperty Number → Condition → Bool
  holds p (exists field) = is_present (p.attributes field)
  holds p (equals field value) = C.same (p.attributes field) value
  holds p (includes_any field values) =
      any (λ v. any (C.same v) values) (values_of (p.attributes field))

  abbrev pub located : (test : Number → Number → Bool) → Option Number → Option Number → Bool
  located test none longitude = false
  located test (some latitude) none = false
  located test (some latitude) (some longitude) = test latitude longitude

  abbrev pub is_named : List String → Attribute → Bool
  is_named names value = any (λ name. C.same value (text name)) names

  -- evaluateClassifier, whether it matched.
  unfoldable mutual
    pub matched : ClassifierProperty Number → ClassifierExpression Number → Bool
    matched p (fields conditions) = all (holds p) conditions
    matched p (place cities zip_codes subdivisions) =
        is_named cities (scalar (text p.city))
        || is_named zip_codes (scalar (text p.zip_code))
        || is_named subdivisions (text_attribute p.subdivision)
    matched p (radius latitude longitude miles) =
        located (C.is_near latitude longitude miles) p.latitude p.longitude
    matched p (polygon points) =
        located (λ lat lon. C.in_polygon lat lon points) p.latitude p.longitude
    matched p (composite every definitions) = every_matched p definitions
    matched p (composite any_of_them definitions) = some_matched p definitions

    pub every_matched : ClassifierProperty Number → Definitions Number → Bool
    every_matched p nil = true
    every_matched p (cons e es) = matched p e && every_matched p es

    pub some_matched : ClassifierProperty Number → Definitions Number → Bool
    some_matched p nil = false
    some_matched p (cons e es) = matched p e || some_matched p es
