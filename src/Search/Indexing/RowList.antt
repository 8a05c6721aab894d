-- ===== src/Search/Indexing/RowList.antt =====
-- Tables as lists of rows, the latest first, and the first of the rows that passes a test.
use Prim.Native.String.{◌++◌, len}
use text.Mathlib.TextPositions.{len-append}
use frontstead_kit.Prelude.{
  ◌≤◌, ◌<◌, ◌≡◌, refl, ap, inl, inr, String, Bool, true, false, Option, none, some, List, [], ◌∷◌,
  str_eq, eq_iff, if◌then◌else◌, arith, Bool-cases,
}
use frontstead_kit.Db.{Table}

module _ {Row : Type 0} where
  abbrev pub find_row : List (String × Row) → String → Option Row
  find_row [] j = none
  find_row ((k, r) ∷ s) j = if str_eq k j then some r else find_row s j

  abbrev pub remove_rows : List (String × Row) → String → List (String × Row)
  remove_rows [] j = []
  remove_rows ((k, r) ∷ s) j = if str_eq j k then remove_rows s j else (k, r) ∷ remove_rows s j

  pub find-remove_rows :
      (s : List (String × Row)) (k j : String)
      → find_row (remove_rows s k) j ≡ (if str_eq k j then none else find_row s j)
  find-remove_rows [] k j = ground arith
  find-remove_rows ((i, r) ∷ s) k j =
      ground (arith, find-remove_rows s k j, eq_iff k j, eq_iff k i, eq_iff i j)

abbrev pub list_table : (Row : Type 0) → Table Row
list_table Row = record {
  State = List (String × Row);
  find = λ s j. find_row s j;
  put = λ s k r. (k, r) ∷ s;
  remove = λ s k. remove_rows s k;
  find-put = λ s k j r. refl;
  find-remove = λ s k j. find-remove_rows s k j;
}

differs : (k j : String) → len k < len j → str_eq k j ≡ false
differs k j h = ground (arith, eq_iff k j, ap len, h)

module _ {Row : Type 0} where
  elsewhere :
      (i k : String) (q r : Row) (rows : List (String × Row))
      → str_eq i k ≡ false
      → find_row ((i, q) ∷ rows) k ≡ some r
      → find_row rows k ≡ some r
  elsewhere i k q r rows differs present = ground (arith, differs, present)

module _ {Row : Type 0} (s : List (String × Row)) where
  -- The first id of a list whose row passes a test, with the row.
  abbrev pub select : (Row → Bool) → List (String × Row) → Option (String × Row)
  select test [] = none
  select test ((k, r) ∷ rows) = elim (find_row s k) [
    | none ↦ select test rows
    | some l ↦ if test l then some (k, l) else select test rows
  ]

  pub select_sound :
      (test : Row → Bool) (rows : List (String × Row)) (k : String) (l : Row)
      → select test rows ≡ some (k, l)
      → (find_row s k ≡ some l) × (test l ≡ true)
  select_sound test [] k l e = ground (arith, e)
  select_sound test ((i, r) ∷ rows) k l e = ground (arith, select_sound test rows k l, e)

  here :
      (test : Row → Bool) (i k : String) (l q : Row) (rows : List (String × Row))
      → i ≡ k
      → find_row s k ≡ some l
      → select test ((i, q) ∷ rows) ≡ none
      → test l ≡ false
  here test i k l q rows same stored e = ground (arith, ap (find_row s) same, stored, e)

  later :
      (test : Row → Bool) (i : String) (q : Row) (rows : List (String × Row))
      → select test ((i, q) ∷ rows) ≡ none
      → select test rows ≡ none
  later test i q rows e = ground (arith, e)

  pub select-none :
      (test : Row → Bool) (rows : List (String × Row))
      → select test rows ≡ none
      → (k : String) (l r : Row) → find_row s k ≡ some l
      → find_row rows k ≡ some r
      → test l ≡ false
  select-none test [] e k l r stored present = ground (arith, present)
  select-none test ((i, q) ∷ rows) e k l r stored present = elim (Bool-cases (str_eq i k)) [
    | inl same ↦ here test i k l q rows ((eq_iff i k).0 same) stored e
    | inr differs ↦
        select-none test rows (later test i q rows e) k l r stored
          (elsewhere i k q r rows differs present)
  ]

abbrev pub drop_id : {Row : Type 0} → Option (String × Row) → Option Row
drop_id none = none
drop_id (some (id, l)) = some l

abbrev pub drop_row : {Row : Type 0} → Option (String × Row) → Option String
drop_row none = none
drop_row (some (id, l)) = some id

abbrev pub all_ids : {Row : Type 0} → List (String × Row) → String
all_ids [] = "x"
all_ids ((k, r) ∷ s) = k ++ all_ids s

module _ {Row : Type 0} where
  longer : (s : List (String × Row)) → 1 ≤ len (all_ids s)
  longer [] = omega arith
  longer ((k, r) ∷ s) = omega (arith, len-append k (all_ids s), longer s)

  long_absent :
      (s : List (String × Row)) (j : String) → len (all_ids s) ≤ len j → find_row s j ≡ none
  long_absent [] j h = refl
  long_absent ((k, r) ∷ s) j h =
      rw (differs k j (omega (arith, h, len-append k (all_ids s), longer s)))
        (long_absent s j (omega (arith, h, len-append k (all_ids s))))

  pub all_ids_fresh : (s : List (String × Row)) → find_row s (all_ids s) ≡ none
  all_ids_fresh s = long_absent s (all_ids s) (omega arith)
