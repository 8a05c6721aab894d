-- ===== src/Mls/Mappers/Safe.antt =====
-- The statuses that normalizeStatus of mappers.ts gives, and which is visible.
use frontstead_kit.Prelude.{
  ◌≡◌, ◌≢◌, ◌∙◌, Bool, true, false, List, [], ◌∷◌, All, any, drop, ap, sym, refl, inl, inr, String,
  some, none, Option, str_eq, eq_iff, Option-cases, Bool-cases, arith,
}
use frontstead_kit.Search.Collection.{active, ListingStatus}
use frontstead_kit.Mls.Value.{Value, str}
use frontstead_kit.Mls.Mappers.{
  choose, normalize_status, status_of_key, NormalizedStatus, entry, reso_status, inherited,
}

abbrev IsHidden : String × ListingStatus → Type 0
IsHidden (key, status) = status ≢ active

entry_hidden :
    (rows : List (String × ListingStatus)) (key : String)
    → All IsHidden rows
    → entry rows key ≢ some active
entry_hidden [] key hs e = absurd (cc e)
entry_hidden ((k, status) ∷ rows) key (h, hs) e = elim (Bool-cases (str_eq key k)) [
  | inl same ↦ h (ground arith)
  | inr other ↦ entry_hidden rows key hs (ground arith)
]

entry_active :
    (k : String) (rows : List (String × ListingStatus)) (key : String)
    → All IsHidden rows
    → entry ((k, active) ∷ rows) key ≡ some active
    → key ≡ k
entry_active k rows key hs e = elim (Bool-cases (str_eq key k)) [
  | inl same ↦ ground (arith, eq_iff key k)
  | inr other ↦ absurd (entry_hidden rows key hs (ground arith))
]

choose_active :
    (o : Option ListingStatus) (b : Bool) → (choose o b).status ≡ some active → o ≡ some active
choose_active (some status) b h = h
choose_active none true h = absurd (cc h)
choose_active none false h = ground arith

status_of_key-active : (key : String) → (status_of_key key).status ≡ some active → key ≡ "Active"
status_of_key-active key h =
    entry_active "Active" (drop 1 reso_status) key all_hidden
      (choose_active (entry reso_status key) (any (λ k. str_eq key k) inherited) h)
  where
    all_hidden : All IsHidden (drop 1 reso_status)
    all_hidden = (
      λ e. ground arith,
      (
        λ e. ground arith,
        (
          λ e. ground arith,
          (
            λ e. ground arith,
            (
              λ e. ground arith,
              (
                λ e. ground arith,
                (
                  λ e. ground arith,
                  (
                    λ e. ground arith,
                    (λ e. ground arith, (λ e. ground arith, (λ e. ground arith, tt))),
                  ),
                ),
              ),
            ),
          ),
        ),
      ),
    )

normalize_status-eq :
    (raw : Value) (key : String) → str raw ≡ some key → normalize_status raw ≡ status_of_key key
unfolding normalize_status
normalize_status-eq raw key e = rw (normalize_status, e) refl

-- What normalizeStatus says is active only if the vendor's text is "Active": any other text and
-- any other value give another status.
pub normalize_status-active :
    (raw : Value) → (normalize_status raw).status ≡ some active → str raw ≡ some "Active"
unfolding normalize_status
normalize_status-active raw h = elim (Option-cases (str raw)) [
  | inl e ↦ ground arith
  | inr (key, e) ↦
      e
      ∙ ap (λ k. some k)
          (status_of_key-active key
            (ap NormalizedStatus.status (sym (normalize_status-eq raw key e)) ∙ h))
]
