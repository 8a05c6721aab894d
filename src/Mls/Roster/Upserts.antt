-- ===== src/Mls/Roster/Upserts.antt =====
-- What the roster stores, and the prefixes of identifiers.
use text.Mathlib.Text.{starts_with}
use text.Mathlib.TextPositions.{starts_with-append, slice-append_right, len-append}
use frontstead_kit.Prelude.{
  ◌≡◌, refl, String, ℕ, false, Option, some, str_eq, Bool-cases, inl, inr, ◌≢◌,
}
use frontstead_kit.Db.{Table, find-put_self, find-put_other}
use frontstead_kit.Mls.Value.{Record, str}
use frontstead_kit.Mls.Roster.{strip_prefix, add_prefix, Agent, agent_of, upsert_agent}

-- A prefix that was added is stripped again: of an identifier that does not start with the prefix,
-- what is shown after the addition is the identifier.
pub strip_prefix-add_prefix :
    (value prefix : String)
    → starts_with value prefix ≡ false
    → strip_prefix (add_prefix value (some prefix)) (some prefix) ≡ value
unfolding strip_prefix add_prefix
strip_prefix-add_prefix value prefix fresh = elim (Bool-cases (str_eq prefix "")) [
  | inl empty ↦ rw empty refl
  | inr given ↦
      rw (given, fresh, starts_with-append prefix value, len-append prefix value)
        (slice-append_right prefix value)
]

module _ (parse_date : String → Option ℕ) (prefix : Option String) (T : Table Agent) where
  -- A member with a key is stored under it, from this record alone, whatever was there before, and
  -- every other row stays.
  pub upsert_agent_rows :
      (r : Record) (s : T.State) (id : String)
      → str (r "MemberKey") ≡ some id
      → (T.find (upsert_agent parse_date prefix T r s).0 id ≡ some (agent_of parse_date prefix r))
        × ((j : String) → id ≢ j → T.find (upsert_agent parse_date prefix T r s).0 j ≡ T.find s j)
  unfolding upsert_agent
  upsert_agent_rows r s id h =
      rw (upsert_agent, h)
        (
          find-put_self T s id (agent_of parse_date prefix r),
          λ j other. find-put_other T s id j (agent_of parse_date prefix r) other,
        )
