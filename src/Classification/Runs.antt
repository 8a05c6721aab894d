-- ===== src/Classification/Runs.antt =====
-- A run over the properties of an account, runClassification of packages/db/classification.ts. The
-- properties are those of the table in the order of their ids, whose pages a query gives from a cursor
-- on; the tables of a property are its areas' memberships and its tags. What the database throws for
-- a property is an argument.
use frontstead_kit.Prelude.{
  ℕ, zero, suc, ◌+◌, String, Bool, true, false, ◌&&◌, Option, none, some, List, [], ◌∷◌, take,
  length, ltb, or_else, str_eq, if◌then◌else◌,
}
use frontstead_kit.Db.{Table}
use frontstead_kit.Classification.{ClassifierProperty, Comparison}
use frontstead_kit.Classification.Rows.{
  Classified, Definition, reclassification, classify_rows, is_stale_property,
}

pub record PropertyInput (Number : Type 0) : Type 0 where
  pub id : String
  pub input : ClassifierProperty Number

pub data Mode : Type 0 where
  check diff apply : Mode

abbrev pub is_diff : Mode → Bool
is_diff check = false
is_diff diff = true
is_diff apply = false

abbrev pub is_apply : Mode → Bool
is_apply check = false
is_apply diff = false
is_apply apply = true

-- The query: the rows after the one with the cursor's id.
unfoldable pub after :
    {Number : Type 0} → Option String → List (PropertyInput Number) → List (PropertyInput Number)
after none rows = rows
after (some id) [] = []
after (some id) (p ∷ rows) =
    let rest = after (some id) rows in if str_eq p.id id then rows else rest

-- The memberships and the tags of each property.
pub record Tables (State : Type 0) : Type 0 where
  pub memberships : String → State
  pub tags : String → State

-- The counters of the loop, the ids listed as stale, the latest first, and the tables.
pub record Progress (State : Type 0) : Type 0 where
  pub cursor : Option String
  pub processed : ℕ
  pub changed : ℕ
  pub listed : List String
  pub tables : Tables State

abbrev pub new_progress : {State : Type 0} → Tables State → Progress State
new_progress tables = record {
  cursor = none;
  processed = 0;
  changed = 0;
  listed = [];
  tables = tables;
}

-- What the database does for a property: nothing goes wrong, or a call throws: the one that reads its
-- tags, one that prepares or reads the areas, or one of those for its n-th area or definition.
pub data Fault : Type 0 where
  sound at_reading at_areas : Fault
  at_area at_definition : (n : ℕ) → Fault

-- How the run's row ends.
pub data Ended (State : Type 0) : Type 0 where
  completed : Progress State → Ended State
  failed : Progress State → Ended State
  out_of_fuel : Ended State

module _ {Number : Type 0} (C : Comparison Number) (T : Table Classified) (version hash : String)
    (areas definitions : List (Definition Number)) (mode : Mode) (fault : String → Fault) where
  abbrev pub set_state : String → T.State → (String → T.State) → String → T.State
  set_state id s f j = if str_eq id j then s else f j

  -- The rows that classifyForAccount writes for some of the areas and definitions.
  unfoldable pub classify_some :
      (areas definitions : List (Definition Number))
      → PropertyInput Number
      → Tables T.State
      → Tables T.State
  classify_some areas definitions p w = record {
    memberships =
        set_state p.id
          (classify_rows C T reclassification version hash p.input areas (w.memberships p.id))
          w.memberships;
    tags =
        set_state p.id
          (classify_rows C T reclassification version hash p.input definitions (w.tags p.id))
          w.tags;
  }

  -- classifyForAccount, once the areas are read.
  abbrev pub classify_for_account : PropertyInput Number → Tables T.State → Tables T.State
  classify_for_account p w = classify_some areas definitions p w

  -- The staleness of a property, counted and listed.
  unfoldable pub count_stale : PropertyInput Number → Progress T.State → Progress T.State
  count_stale p w =
      let stale = is_stale_property T version hash definitions (w.tables.tags p.id) in
      record w {
        changed = if stale then w.changed + 1 else w.changed;
        listed = if is_diff mode && stale then p.id ∷ w.listed else w.listed;
      }

  -- The body of the inner loop.
  unfoldable pub process_property : PropertyInput Number → Progress T.State → Progress T.State
  process_property p w =
      let counted = count_stale p w in
      record counted {
        cursor = some p.id;
        processed = w.processed + 1;
        tables = if is_apply mode then classify_for_account p w.tables else w.tables;
      }

  -- What a throw while the rows are written leaves: the staleness is counted, and those before the
  -- throw are written.
  abbrev pub written_before :
      (areas definitions : List (Definition Number))
      → PropertyInput Number
      → Progress T.State
      → Option (Progress T.State)
  written_before areas definitions p w =
      some (record (count_stale p w) { tables = classify_some areas definitions p w.tables })

  -- What a property leaves for which a call throws.
  unfoldable pub stopped :
      Fault → PropertyInput Number → Progress T.State → Option (Progress T.State)
  stopped sound p w = none
  stopped at_reading p w = some w
  stopped at_areas p w = if is_apply mode then some (count_stale p w) else none
  stopped (at_area n) p w =
      if is_apply mode && ltb n (length areas) then written_before (take n areas) [] p w else none
  stopped (at_definition n) p w =
      if is_apply mode && ltb n (length definitions)
      then written_before areas (take n definitions) p w
      else none

  abbrev pub end_property :
      Option (Progress T.State) → Progress T.State × Bool → Progress T.State × Bool
  end_property none rest = rest
  end_property (some w') rest = (w', true)

  -- A page, up to a property for which a call throws; the flag says whether one did.
  unfoldable pub classify_page :
      List (PropertyInput Number) → Progress T.State → Progress T.State × Bool
  classify_page [] w = (w, false)
  classify_page (p ∷ rows) w =
      let rest = classify_page rows (process_property p w) in
      end_property (stopped (fault p.id) p w) rest

  module _ (batch_size : Option ℕ) (rows : List (PropertyInput Number)) where
    abbrev pub end_page :
        (next : Progress T.State → Ended T.State) → Progress T.State × Bool → Ended T.State
    end_page next (w, true) = failed w
    end_page next (w, false) = next w

    -- `while (true)`, on fuel.
    unfoldable pub run_pages : ℕ → Progress T.State → Ended T.State
    run_pages zero w = out_of_fuel
    run_pages (suc fuel) w = elim (take (or_else batch_size 250) (after w.cursor rows)) [
      | [] ↦ completed w
      | p ∷ page ↦ end_page (run_pages fuel) (classify_page (p ∷ page) w)
    ]
