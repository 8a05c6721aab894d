-- ===== src/Search/Reindex.antt =====
-- The rebuild of a collection of the search index, reindexAll of packages/search/syncService.ts. The
-- client of Typesense is a parameter, with JSON.parse of an exported line.
pub mod Exact
mod Examples
pub mod Reading
use frontstead_kit.Prelude.{
  ℕ, String, Bool, true, false, not, ◌&&◌, ◌||◌, Option, none, some, List, [], ◌∷◌, any, all, keep,
  map, length, ◌==◌, str_eq, ◌≡◌, if◌then◌else◌,
}
use frontstead_kit.Mls.Value.{trim}
use frontstead_kit.Search.Indexing.{Answer, is_broken}

-- What JSON.parse gives of a line: nothing, an object with a text for its id, or anything else.
pub data Line : Type 0 where
  invalid without_id : Line
  with_id : String → Line

abbrev pub shows_id : String → Line → Bool
shows_id id (with_id j) = str_eq id j
shows_id id invalid = false
shows_id id without_id = false

abbrev pub set_has : List String → String → Bool
set_has set id = any (str_eq id) set

abbrev pub is_blank : String → Bool
is_blank line = str_eq (trim line) ""

abbrev pub has_id : {Doc : Type 0} → (Doc → Option String) → String → Doc → Bool
has_id id_of id d = elim (id_of d) [ none ↦ false | some j ↦ str_eq j id ]

-- The last document of an id, over what was there.
abbrev pub last_of :
    {Doc : Type 0} → (Doc → Option String) → List Doc → String → Option Doc → Option Doc
last_of id_of [] id old = old
last_of id_of (d ∷ docs) id old =
    if has_id id_of id d then last_of id_of docs id (some d) else last_of id_of docs id old

-- The collection: its documents by id, and the client's calls. `import` answers for each document
-- whether it succeeded, or throws.
pub record Collection (Doc : Type 0) : Type 1 where
  pub State : Type 0
  pub find : State → String → Option Doc
  pub id_of : Doc → Option String
  pub parse : String → Line
  pub export_lines : State → Option (List String)
  pub import_docs : State → List Doc → State × Option (List Bool)
  pub delete : State → String → State × Answer
  -- an export that does not throw has a line for each document
  pub export-complete :
      (s : State) (lines : List String) (id : String) (d : Doc)
      → export_lines s ≡ some lines
      → find s id ≡ some d
      → any (λ line. not (is_blank line) && shows_id id (parse line)) lines ≡ true
  -- an import that succeeds for each document leaves the last one of each id
  pub find-import_docs :
      (s : State) (docs : List Doc) (rs : List Bool) (id : String)
      → (import_docs s docs).1 ≡ some rs
      → length rs ≡ length docs
      → all (λ r. r) rs ≡ true
      → find (import_docs s docs).0 id ≡ last_of id_of docs id (find s id)
  pub find-delete :
      (s : State) (id j : String)
      → is_broken (delete s id).1 ≡ false
      → find (delete s id).0 j ≡ (if str_eq id j then none else find s j)

-- Set.add
abbrev pub add_id : List String → String → List String
add_id set id = if set_has set id then set else id ∷ set

pub data Reindexed : Type 0 where
  counts : (desired_count upserted_count deleted_count : ℕ) → Reindexed
  error : Reindexed

-- The `id` of a line, or of a document, added to a set; `none` where it is an error.
abbrev pub add_text_id : List String → Option String → Option (List String)
add_text_id set none = none
add_text_id set (some id) = if str_eq id "" then none else some (add_id set id)

abbrev pub id_of_line : Line → Option String
id_of_line (with_id id) = some id
id_of_line invalid = none
id_of_line without_id = none

module _ {Doc : Type 0} (S : Collection Doc) where
  -- The ids of the exported lines, unless one is an error.
  unfoldable pub existing_ids : List String → List String → Option (List String)
  existing_ids set [] = some set
  existing_ids set (line ∷ lines) =
      let skipped = existing_ids set lines in
      let read : Option (List String) = elim (add_text_id set (id_of_line (S.parse line))) [
        | none ↦ none
        | some set' ↦ existing_ids set' lines
      ] in
      if is_blank line then skipped else read

  unfoldable pub desired_ids : List String → List Doc → Option (List String)
  desired_ids set [] = some set
  desired_ids set (d ∷ docs) = elim (add_text_id set (S.id_of d)) [
    | none ↦ none
    | some set' ↦ desired_ids set' docs
  ]

  -- `docs.length ? import : nothing`, and whether it failed.
  abbrev pub import_all : S.State → List Doc → S.State × Bool
  import_all s [] = (s, false)
  import_all s (d ∷ docs) =
      let (s', results) = S.import_docs s (d ∷ docs) in
      elim results [
        | none ↦ (s', true)
        | some rs ↦ (s', not (length rs == length (d ∷ docs)) || not (all (λ r. r) rs))
      ]

  -- The deletions, until one throws.
  unfoldable pub delete_all : S.State → List String → S.State × Bool
  delete_all s [] = (s, false)
  delete_all s (id ∷ ids) =
      let (s', answer) = S.delete s id in
      let rest = delete_all s' ids in if is_broken answer then (s', true) else rest

  unfoldable pub stale_ids : (existing desired : List String) → List String
  stale_ids existing desired = keep (λ id. not (set_has desired id)) existing

  abbrev pub union_ids : List String → List String → List String
  union_ids set [] = set
  union_ids set (id ∷ ids) = union_ids (add_id set id) ids

  -- `options.reconcile` of each id, until one throws.
  pub reconcile_all : (S.State → String → S.State × Bool) → S.State → List String → S.State × Bool
  reconcile_all reconcile s [] = (s, false)
  reconcile_all reconcile s (id ∷ ids) =
      let (s', thrown) = reconcile s id in
      let rest = reconcile_all reconcile s' ids in if thrown then (s', true) else rest

  -- The optional reconciliation, and the counts.
  abbrev pub reconciled :
      Option (S.State → String → S.State × Bool)
      → (existing desired stale : List String) → List Doc
      → S.State × Bool
      → S.State × Reindexed
  reconciled reconcile existing desired stale docs (s, true) = (s, error)
  reconciled none existing desired stale docs (s, false) =
      (s, counts (length desired) (length docs) (length stale))
  reconciled (some f) existing desired stale docs (s, false) =
      let (s', thrown) = reconcile_all f s (union_ids existing desired) in
      (s', if thrown then error else counts (length desired) (length docs) (length stale))

  abbrev pub replaced :
      Option (S.State → String → S.State × Bool)
      → (existing desired : List String) → List Doc
      → S.State × Bool
      → S.State × Reindexed
  replaced reconcile existing desired docs (s, true) = (s, error)
  replaced reconcile existing desired docs (s, false) =
      let stale = stale_ids existing desired in
      reconciled reconcile existing desired stale docs (delete_all s stale)

  abbrev pub rebuild :
      Option (S.State → String → S.State × Bool)
      → Option (List String)
      → List Doc
      → S.State
      → S.State × Reindexed
  rebuild reconcile none docs s = (s, error)
  rebuild reconcile (some existing) docs s = elim (desired_ids [] docs) [
    | none ↦ (s, error)
    | some desired ↦ replaced reconcile existing desired docs (import_all s docs)
  ]

  abbrev pub exported : Bool → S.State → Option (List String)
  exported false s = some []
  exported true s = elim (S.export_lines s) [ none ↦ none | some lines ↦ existing_ids [] lines ]

  unfoldable pub reindex_all :
      (exact : Bool)
      → Option (S.State → String → S.State × Bool)
      → List Doc
      → S.State
      → S.State × Reindexed
  unfolding reconcile_all
  reindex_all exact reconcile docs s = rebuild reconcile (exported exact s) docs s
