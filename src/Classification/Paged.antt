-- ===== src/Classification/Paged.antt =====
-- The pages of a run of runClassification.
use mathlib.Core.Path.{subst}
use frontstead_kit.Prelude.{
  ℕ, zero, suc, ◌<◌, ◌≡◌, ◌≢◌, inl, inr, refl, sym, ap, ◌∙◌, String, Bool, true, false, Option,
  none, some, List, [], ◌∷◌, length, take, drop, length-drop, or_else, eq_iff, eq_refl,
  Option-cases, arith, All,
}
use frontstead_kit.Db.{Table}
use frontstead_kit.Classification.{Comparison}
use frontstead_kit.Classification.Rows.{Classified, Definition}
use frontstead_kit.Classification.Runs.{
  PropertyInput, Mode, Tables, after, Progress, Ended, completed, failed, process_property,
  classify_page, end_page, stopped, Fault, run_pages, new_progress,
}

module _ {Number : Type 0} where
  -- No two rows have the same id.
  abbrev pub IsDistinct : List (PropertyInput Number) → Type 0
  IsDistinct [] = Unit
  IsDistinct (p ∷ rows) = All (λ q. p.id ≢ q.id) rows × IsDistinct rows

  -- From each row of the rest on, the table has the rows of the rest.
  Follows : List (PropertyInput Number) → List (PropertyInput Number) → Type 0
  Follows rows [] = Unit
  Follows rows (p ∷ rest) = (after (some p.id) rows ≡ rest) × Follows rows rest

  follow_later :
      (p : PropertyInput Number) (rows rest : List (PropertyInput Number))
      → All (λ q. p.id ≢ q.id) rest
      → Follows rows rest
      → Follows (p ∷ rows) rest
  unfolding Follows after
  follow_later p rows [] all f = tt
  follow_later p rows (q ∷ rest) (other, all) (e, f) =
      (ground (arith, eq_iff p.id q.id, other, e), follow_later p rows rest all f)

  follow_all : (rows : List (PropertyInput Number)) → IsDistinct rows → Follows rows rows
  unfolding Follows after
  follow_all [] d = tt
  follow_all (p ∷ rows) (all, d) =
      (ground (arith, eq_refl p.id), follow_later p rows rows all (follow_all rows d))

  follow_drop :
      (rows rest : List (PropertyInput Number)) (n : ℕ)
      → Follows rows rest
      → Follows rows (drop n rest)
  unfolding Follows
  follow_drop rows rest zero f = f
  follow_drop rows [] (suc n) f = tt
  follow_drop rows (p ∷ rest) (suc n) (e, f) = follow_drop rows rest n f

module _ {Number : Type 0} (C : Comparison Number) (T : Table Classified) (version hash : String)
    (areas definitions : List (Definition Number)) (mode : Mode) (fault : String → Fault) where
  abbrev page : List (PropertyInput Number) → Progress T.State → Progress T.State × Bool
  page rows w = classify_page C T version hash areas definitions mode fault rows w

  -- A page that throws, or the rest after it.
  abbrev onward : List (PropertyInput Number) → Progress T.State × Bool → Progress T.State × Bool
  onward rest (w, true) = (w, true)
  onward rest (w, false) = page rest w

  page_nil : (w : Progress T.State) → page [] w ≡ (w, false)
  unfolding classify_page
  page_nil w = refl

  stops : PropertyInput Number → Progress T.State → Option (Progress T.State)
  stops p w = stopped C T version hash areas definitions mode fault (fault p.id) p w

  page_stop :
      (p : PropertyInput Number) (rest : List (PropertyInput Number)) (w w' : Progress T.State)
      → stops p w ≡ some w'
      → page (p ∷ rest) w ≡ (w', true)
  unfolding classify_page stops
  page_stop p rest w w' stop = rw (classify_page, stop) refl

  page_go :
      (p : PropertyInput Number) (rest : List (PropertyInput Number)) (w : Progress T.State)
      → stops p w ≡ none
      → page (p ∷ rest) w
        ≡ page rest (process_property C T version hash areas definitions mode fault p w)
  unfolding classify_page stops
  page_go p rest w go = rw (classify_page, go) refl

  page_split :
      (n : ℕ) (rest : List (PropertyInput Number)) (w : Progress T.State)
      → page rest w ≡ onward (drop n rest) (page (take n rest) w)
  page_split zero rest w = sym (ap (onward rest) (page_nil w))
  page_split (suc n) [] w = page_nil w ∙ sym (ap (onward []) (page_nil w) ∙ page_nil w)
  page_split (suc n) (p ∷ rest) w = elim (Option-cases (stops p w)) [
    | inr (w', stop) ↦
        page_stop p rest w w' stop
        ∙ sym (ap (onward (drop n rest)) (page_stop p (take n rest) w w' stop))
    | inl go ↦
        page_go p rest w go
        ∙ page_split n rest (process_property C T version hash areas definitions mode fault p w)
        ∙ sym (ap (onward (drop n rest)) (page_go p (take n rest) w go))
  ]

  -- After a page, unless it threw, the cursor is at its end.
  AtRest :
      List (PropertyInput Number) → List (PropertyInput Number) → Progress T.State × Bool → Type 0
  AtRest rows rest (w, true) = Unit
  AtRest rows rest (w, false) = after w.cursor rows ≡ rest

  page-AtRest :
      (n : ℕ) (rows rest : List (PropertyInput Number)) (w : Progress T.State)
      → after w.cursor rows ≡ rest
      → Follows rows rest
      → AtRest rows (drop n rest) (page (take n rest) w)
  unfolding classify_page AtRest Follows process_property
  page-AtRest zero rows rest w e f = e
  page-AtRest (suc n) rows [] w e f = e
  page-AtRest (suc n) rows (p ∷ rest) w e (next, f) = elim (Option-cases (stops p w)) [
    | inr (w', stop) ↦
        subst (AtRest rows (drop n rest)) (sym (page_stop p (take n rest) w w' stop)) tt
    | inl go ↦ subst (AtRest rows (drop n rest)) (sym (page_go p (take n rest) w go)) (
        page-AtRest n rows rest (process_property C T version hash areas definitions mode fault p w)
          next f)
  ]

  module _ (batch_size : Option ℕ) (rows : List (PropertyInput Number)) where
    abbrev run : ℕ → Progress T.State → Ended T.State
    run fuel w = run_pages C T version hash areas definitions mode fault batch_size rows fuel w

    abbrev pub close : Progress T.State × Bool → Ended T.State
    close (w, true) = failed w
    close (w, false) = completed w

    turn :
        (fuel : ℕ) (rest : List (PropertyInput Number)) (x : Progress T.State × Bool)
        → AtRest rows rest x
        → ((w : Progress T.State) → after w.cursor rows ≡ rest → run fuel w ≡ close (page rest w))
        → end_page C T version hash areas definitions mode fault batch_size rows (run fuel) x
          ≡ close (onward rest x)
    unfolding AtRest
    turn fuel rest (w, true) at next = refl
    turn fuel rest (w, false) at next = next w at

    run-close :
        (fuel size : ℕ) (rest : List (PropertyInput Number)) (w : Progress T.State)
        → or_else batch_size 250 ≡ suc size
        → length rest < fuel
        → after w.cursor rows ≡ rest
        → Follows rows rest
        → run fuel w ≡ close (page rest w)
    unfolding run_pages
    run-close zero size rest w b h e f = absurd (omega (arith, h))
    run-close (suc fuel) size [] w b h e f = rw (run_pages, e, b, page_nil w) refl
    run-close (suc fuel) size (p ∷ rest) w b h e f =
        rw (run_pages, e, b, page_split (suc size) (p ∷ rest) w)
          (turn fuel (drop size rest) (page (p ∷ take size rest) w)
            (page-AtRest (suc size) rows (p ∷ rest) w e f)
            (λ w' e'.
              run-close fuel size (drop size rest) w' b (omega (arith, h, length-drop size rest)) e'
                (follow_drop rows (p ∷ rest) (suc size) f)))

-- A run in batches of at least one property ends: with fuel for the properties, it completes when it
-- has processed each property once and in order, or it fails at the first property for which a call
-- throws, with the counters and tables of those before it and what it had counted and written of that
-- property.
pub run_pages-eq-classify_page :
    {Number : Type 0} (C : Comparison Number) (T : Table Classified) (version hash : String)
    (areas definitions : List (Definition Number)) (mode : Mode) (fault : String → Fault)
    (batch_size : Option ℕ) (rows : List (PropertyInput Number)) (fuel size : ℕ)
    (tables : Tables T.State)
    → IsDistinct rows
    → or_else batch_size 250 ≡ suc size
    → length rows < fuel
    → run_pages C T version hash areas definitions mode fault batch_size rows fuel
        (new_progress tables)
      ≡ close C T version hash areas definitions mode fault batch_size rows
          (classify_page C T version hash areas definitions mode fault rows (new_progress tables))
unfolding after
run_pages-eq-classify_page C T version hash areas definitions mode fault batch_size rows fuel size
      tables d b h =
    run-close C T version hash areas definitions mode fault batch_size rows fuel size rows
      (new_progress tables) b h refl (follow_all rows d)
