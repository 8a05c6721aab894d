-- ===== src/Db.antt =====
-- One table of the database, seen through its unique key. The database is a service outside the
-- repository, so a table is a parameter of every component that uses one: its reads and writes by
-- key, with the behaviour that Prisma documents for findUnique, create, update, upsert and delete.
-- Queries that return many rows stay arguments of the operations that make them.
pub mod Slugs
use frontstead_kit.Prelude.{
  Bool, String, ◌≡◌, refl, Option, none, some, str_eq, eq_refl, eq_iff, if◌then◌else◌, arith, ◌≢◌,
}

pub record Table (Row : Type 0) : Type 1 where
  pub State : Type 0
  -- findUnique, findFirst by id
  pub find : State → String → Option Row
  -- create, update and upsert: afterwards the key holds the row
  pub put : State → String → Row → State
  -- delete and deleteMany by key
  pub remove : State → String → State
  pub find-put :
      (s : State) (k j : String) (r : Row)
      → find (put s k r) j ≡ (if str_eq k j then some r else find s j)
  pub find-remove :
      (s : State) (k j : String) → find (remove s k) j ≡ (if str_eq k j then none else find s j)

module _ {Row : Type 0} (T : Table Row) where
  pub find-put_self : (s : T.State) (k : String) (r : Row) → T.find (T.put s k r) k ≡ some r
  find-put_self s k r = ground (arith, T.find-put s k k r, eq_refl k)

  pub find-put_other :
      (s : T.State) (k j : String) (r : Row) → k ≢ j → T.find (T.put s k r) j ≡ T.find s j
  find-put_other s k j r h = ground (arith, T.find-put s k j r, eq_iff k j)

  pub find-remove_self : (s : T.State) (k : String) → T.find (T.remove s k) k ≡ none
  find-remove_self s k = ground (arith, T.find-remove s k k, eq_refl k)

  pub find-remove_other :
      (s : T.State) (k j : String) → k ≢ j → T.find (T.remove s k) j ≡ T.find s j
  find-remove_other s k j h = ground (arith, T.find-remove s k j, eq_iff k j)

-- updateMany: the rows that satisfy a test are written anew, the others stay.
pub record Bulk {Row : Type 0} (T : Table Row) : Type 0 where
  pub update_many : Table.State T → (Row → Bool) → (Row → Row) → Table.State T
  pub find-update_many :
      (s : Table.State T) (p : Row → Bool) (f : Row → Row) (j : String)
      → Table.find T (update_many s p f) j
        ≡ (elim (Table.find T s j) [ none ↦ none | some r ↦ some (if p r then f r else r) ])

-- A table that meets the laws: a function from keys.
abbrev pub finite_map : (Row : Type 0) → Table Row
finite_map Row = record {
  State = String → Option Row;
  find = λ s k. s k;
  put = λ s k r j. if str_eq k j then some r else s j;
  remove = λ s k j. if str_eq k j then none else s j;
  find-put = λ s k j r. refl;
  find-remove = λ s k j. refl;
}

abbrev pub finite_bulk : (Row : Type 0) → Bulk (finite_map Row)
finite_bulk Row = record {
  update_many = λ s p f j. elim (s j) [ none ↦ none | some r ↦ some (if p r then f r else r) ];
  find-update_many = λ s p f j. refl;
}
