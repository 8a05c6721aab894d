-- ===== src/Mls/Connector.antt =====
-- The RESO Web API connector, apps/mls-service/src/connectors/reso/ResoWebApiConnector.ts: the retries
-- of one request and the pages of a resource. The vendor's server is an argument: its answer to
-- the n-th request, for a path. Delays are recorded, not waited for.
pub mod Retries
pub mod Paging
mod Examples
pub mod Attempts
use Prim.Native.String
use frontstead_kit.Prelude.{
  ◌++◌, ℕ, zero, suc, ◌+◌, ◌-◌, ◌*◌, ◌^◌, String, Bool, true, false, ◌&&◌, Option, none, some, List,
  [], ◌∷◌, leb, ltb, str_eq, if◌then◌else◌,
}
use frontstead_kit.Mls.Metrics.{Feed, page, finished, broken}
use frontstead_kit.Mls.Value.{Record}

-- The envelope of a page with its `@odata.nextLink`, or the HTTP status, if any, and the message.
pub data Response : Type 0 where
  answered : List Record → Option String → Response
  refused : Option ℕ → String → Response

-- `status !== undefined && status >= 400 && status < 500`
abbrev pub is_client_error : Option ℕ → Bool
is_client_error none = false
is_client_error (some status) = leb 400 status && ltb status 500

-- What executeWithRetry returns or throws, the requests made so far, and its delays.
pub record Tried : Type 0 where
  pub response : Response
  pub sent : ℕ
  pub delays : List ℕ

abbrev pub undefined : Response
undefined = refused none "undefined"

-- `if (attempt < this.maxRetries) await delay(backoff)`; `left` attempts remain.
abbrev pub after_delay : (left backoff : ℕ) → Tried → Tried
after_delay zero backoff t = t
after_delay (suc left) backoff t = record t { delays = backoff ∷ t.delays }

module _ (respond : ℕ → String → Response) (retry_base_delay_ms : ℕ) where
  -- The loop of executeWithRetry from the attempt `attempt` on, with `left` attempts allowed.
  pub attempt_from : (left attempt sent : ℕ) → (url : String) → (last_error : Response) → Tried
  attempt_from zero attempt sent url last_error = record {
    response = last_error;
    sent = sent;
    delays = [];
  }
  attempt_from (suc left) attempt sent url last_error =
      let again = attempt_from left (attempt + 1) (sent + 1) url in
      elim (respond sent url) [
        | answered records link ↦ record {
          response = answered records link;
          sent = sent + 1;
          delays = [];
        }
        | refused status message ↦
            if is_client_error status
            then record { response = refused status message; sent = sent + 1; delays = [] }
            else after_delay left (retry_base_delay_ms * 2 ^ (attempt - 1))
                (again (refused status message))
      ]

  -- executeWithRetry of throttledGet.
  pub execute_with_retry : (max_retries sent : ℕ) → String → Tried
  unfolding attempt_from
  execute_with_retry max_retries sent url = attempt_from max_retries 1 sent url undefined

  -- `data['@odata.nextLink'] ?? null`, and the loop's test, which an empty link fails.
  abbrev pub next_url : Option String → Option String
  next_url none = none
  next_url (some link) = if str_eq link "" then none else some link

  abbrev pub after_page : List Record → Option Feed → Option Feed
  after_page records none = none
  after_page records (some feed) = some (page records feed)

  -- fetchResource from a path on, with the requests made before; `none` is the end of the fuel.
  pub fetch_from : (fuel max_retries sent : ℕ) → (url : String) → Option Feed
  unfolding execute_with_retry
  fetch_from zero max_retries sent url = none
  fetch_from (suc fuel) max_retries sent url =
      let t = execute_with_retry max_retries sent url in
      elim t.response [
        | refused status message ↦ some (broken message)
        | answered records link ↦ elim (next_url link) [
          | none ↦ some (page records finished)
          | some next ↦ after_page records (fetch_from fuel max_retries t.sent next)
        ]
      ]

-- The first path of a resource.
pub record FetchOptions : Type 0 where
  pub since : Option ℕ
  pub require_viewable : Bool
  pub expand_media : Bool

-- A configured text, which counts if it is not empty.
abbrev pub given : Option String → Option String
given none = none
given (some s) = if str_eq s "" then none else some s

abbrev pub join : String → List String → String
join separator [] = ""
join separator (s ∷ []) = s
join separator (s ∷ t ∷ ts) = String.◌++◌ s (String.◌++◌ separator (join separator (t ∷ ts)))

module _ (board_scope_field board_scope_value viewable_flag_field : Option String)
    (page_size : String) (to_iso_string : ℕ → String) (encode_uri_component : String → String) where
  abbrev pub board_clause : Option String → Option String → List String
  board_clause none value = []
  board_clause (some field) none = []
  board_clause (some field) (some value) =
      String.◌++◌ field (String.◌++◌ " eq '" (String.◌++◌ value "'")) ∷ []

  abbrev pub viewable_clause : Bool → Option String → List String
  viewable_clause false field = []
  viewable_clause true none = []
  viewable_clause true (some field) = String.◌++◌ field " eq true" ∷ []

  abbrev pub since_clause : Option ℕ → List String
  since_clause none = []
  since_clause (some since) = String.◌++◌ "ModificationTimestamp gt " (to_iso_string since) ∷ []

  -- buildFilter
  pub build_filter : FetchOptions → String
  build_filter opts = join " and " (
      board_clause (given board_scope_field) (given board_scope_value)
      ++ viewable_clause opts.require_viewable (given viewable_flag_field)
      ++ since_clause opts.since)

  abbrev pub filter_clause : Option String → List String
  filter_clause none = []
  filter_clause (some filter) = String.◌++◌ "$filter=" (encode_uri_component filter) ∷ []

  -- buildPath
  pub build_path : (resource : String) → FetchOptions → String
  unfolding build_filter
  build_path resource opts = String.◌++◌ "/" (
      String.◌++◌ resource (
        String.◌++◌ "?" (
          join "&" (
            filter_clause (given (some (build_filter opts)))
            ++ (String.◌++◌ "$top=" page_size ∷ "$orderby=ModificationTimestamp" ∷ [])
            ++ (if opts.expand_media then "$expand=Media" ∷ [] else [])))))
