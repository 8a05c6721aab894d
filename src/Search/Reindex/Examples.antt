-- ===== src/Search/Reindex/Examples.antt =====
-- An index with a stale document.
use Prim.Native.Char.{Char}
use frontstead_kit.Prelude.{
  str_eq, if◌then◌else◌, Bool, ℕ, ◌≡◌, refl, ap, sym, ◌∙◌, String, true, false, not, ◌&&◌, Option,
  some, List, [], ◌∷◌, any, map, eq_iff, arith, Bool-cases, inl, inr,
}
use frontstead_kit.Mls.Value.{trim, trim_start, trim_end, is_space}
use frontstead_kit.Search.Indexing.{done}
use frontstead_kit.Search.Indexing.Finite.{find_row, remove_rows, find-remove_rows}
use frontstead_kit.Search.Reindex.{
  reconcile_all, Line, invalid, with_id, shows_id, Collection, is_blank, last_of, reindex_all,
  existing_ids, desired_ids, delete_all, stale_ids,
}
use frontstead_kit.Search.Reindex.Exact.{IsExact, reindex_all-IsExact}

-- A document is its id and a number; its line is the id after a mark.
abbrev Doc : Type 0
Doc = String × ℕ

abbrev doc_id : Doc → Option String
doc_id d = some d.0

abbrev parse : String → Line
parse String.[] = invalid
parse (String.◌∷◌ c s) = with_id s

abbrev line_of : String → String
line_of id = String.◌∷◌ "#" id

abbrev lines_of : List (String × Doc) → List String
lines_of s = map (λ r. line_of r.0) s

abbrev imported : List (String × Doc) → List Doc → List (String × Doc)
imported s [] = s
imported s (d ∷ docs) = imported ((d.0, d) ∷ s) docs

never_empty : (c : Char) (s : String) → String.◌∷◌ c s ≡ "" → ⊥
never_empty c s e = cc

unmarked : (id : String) → is_blank (line_of id) ≡ false
unfolding trim trim_start trim_end is_space
unmarked id = elim (Bool-cases (is_blank (line_of id))) [
  | inl blank ↦ absurd (never_empty "#" (trim_end id) ((eq_iff (trim (line_of id)) "").0 blank))
  | inr full ↦ full
]

complete :
    (s : List (String × Doc)) (id : String) (d : Doc)
    → find_row s id ≡ some d
    → any (λ line. not (is_blank line) && shows_id id (parse line)) (lines_of s) ≡ true
complete [] id d e = ground (arith, e)
complete ((k, r) ∷ s) id d e =
    ground (arith, complete s id d, unmarked k, eq_iff k id, eq_iff id k, e)

inner : (xs ys : List String) → some xs ≡ some ys → xs ≡ ys
inner xs ys e = cc

exported_all :
    (s : List (String × Doc)) (lines : List String) (id : String) (d : Doc)
    → some (lines_of s) ≡ some lines
    → find_row s id ≡ some d
    → any (λ line. not (is_blank line) && shows_id id (parse line)) lines ≡ true
exported_all s lines id d given e =
    ap (any (λ line. not (is_blank line) && shows_id id (parse line)))
      (sym (inner (lines_of s) lines given))
    ∙ complete s id d e

find-imported :
    (s : List (String × Doc)) (docs : List Doc) (id : String)
    → find_row (imported s docs) id ≡ last_of doc_id docs id (find_row s id)
find-imported s [] id = refl
find-imported s (d ∷ docs) id = ground (arith, find-imported ((d.0, d) ∷ s) docs id)

abbrev collection : Collection Doc
collection = record {
  State = List (String × Doc);
  find = λ s id. find_row s id;
  id_of = doc_id;
  parse = parse;
  export_lines = λ s. some (lines_of s);
  import_docs = λ s docs. (imported s docs, some (map (λ d. true) docs));
  delete = λ s id. (remove_rows s id, done);
  export-complete = λ s lines id d given e. exported_all s lines id d given e;
  find-import_docs = λ s docs rs id a b c. find-imported s docs id;
  find-delete = λ s id j h. find-remove_rows s id j;
}

abbrev before : List (String × Doc)
before = ("old", ("old", 1)) ∷ ("p1", ("p1", 1)) ∷ []

abbrev docs : List Doc
docs = ("p1", 2) ∷ ("p2", 2) ∷ []

-- A reconciliation that withdraws the property "p2".
abbrev recheck : List (String × Doc) → String → List (String × Doc) × Bool
recheck s id = (if str_eq id "p2" then remove_rows s id else s, false)

reindex_all-IsExact_example :
    IsExact collection
      (some recheck)
      docs
      before
      (reindex_all collection true (some recheck) docs before).0
unfolding reindex_all existing_ids desired_ids delete_all stale_ids reconcile_all trim trim_start
    trim_end is_space
reindex_all-IsExact_example = reindex_all-IsExact collection (some recheck) docs before 2 2 1 refl
