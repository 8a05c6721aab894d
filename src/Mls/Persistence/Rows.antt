-- ===== src/Mls/Persistence/Rows.antt =====
-- The columns that a RESO record gives, buildPropertyData and buildListingData of
-- apps/mls-service/src/sync/persistence.ts, with assembleAddress and toRawData of mappers.ts.
use Prim.Native.Char.{code}
use Prim.Native.String.{◌++◌}
use frontstead_kit.Prelude.{
  ℕ, String, Bool, true, false, Option, none, some, List, [], ◌∷◌, or_else, str_eq, if◌then◌else◌,
}
use frontstead_kit.Search.Indexing.{PropertyData, ListingData}
use frontstead_kit.Mls.Value.{Value, Record, undefined, str, date_of, trim, is_space}
use frontstead_kit.Mls.Mappers.{
  PropertyType, single_family, condo, townhouse, multi_family, land, commercial,
  normalize_property_type, normalize_status, is_idx_displayable,
}
use frontstead_kit.Mls.Roster.{display_id}

-- The readings of a value that are JavaScript's or a regular expression's, and the prefix of the
-- board.
pub record Builders (Number : Type 0) : Type 0 where
  pub num : Value → Option Number
  pub int : Value → Option Number
  pub normalize_subdivision : Value → Option String
  pub parse_date : String → Option ℕ
  pub stringify : Record → String
  pub prefix : Option String

-- `.replace(/\s+/g, ' ')`; the flag says that a run goes on.
pub collapsed : (in_run : Bool) → String → String
collapsed in_run String.[] = String.[]
collapsed true (String.◌∷◌ c s) =
    let run = collapsed true s in
    let end = collapsed false s in if is_space (code c) then run else String.◌∷◌ c end
collapsed false (String.◌∷◌ c s) =
    let run = collapsed true s in
    let end = collapsed false s in
    if is_space (code c) then String.◌∷◌ " " run else String.◌∷◌ c end

-- The texts that are there, joined by a space.
pub joined : List (Option String) → String
joined [] = ""
joined (none ∷ parts) = joined parts
joined (some part ∷ parts) =
    let rest = joined parts in if str_eq rest "" then part else part ++ " " ++ rest

unfoldable pub assemble_address : Record → String
unfolding collapsed joined
assemble_address r = elim (str (r "UnparsedAddress")) [
  | some unparsed ↦ trim (collapsed false unparsed)
  | none ↦
      let address = joined (
        str (r "StreetNumber")
        ∷ str (r "StreetDirPrefix")
        ∷ str (r "StreetName")
        ∷ str (r "StreetSuffix")
        ∷ str (r "StreetDirSuffix")
        ∷ []) in
      elim (str (r "UnitNumber")) [ none ↦ address | some unit ↦ address ++ " #" ++ unit ]
]

-- toRawData: without the expansions that the Media table owns.
unfoldable pub to_raw_data : Record → Record
to_raw_data r key = if str_eq key "Media" then undefined else r key

abbrev type_name : PropertyType → String
type_name single_family = "SINGLE_FAMILY"
type_name condo = "CONDO"
type_name townhouse = "TOWNHOUSE"
type_name multi_family = "MULTI_FAMILY"
type_name land = "LAND"
type_name commercial = "COMMERCIAL"

abbrev type_text : Option PropertyType → Option String
type_text none = none
type_text (some t) = some (type_name t)

-- `a ?? b`
abbrev coalesce : Value → Value → Value
coalesce Value.undefined b = b
coalesce Value.null b = b
coalesce (Value.bool a) b = Value.bool a
coalesce (Value.number a) b = Value.number a
coalesce (Value.text a) b = Value.text a
coalesce Value.other b = Value.other

module _ {Number : Type 0} (B : Builders Number) where
  unfoldable pub build_property_data : Record → PropertyData Number
  build_property_data r = record {
    address = assemble_address r;
    city = or_else (str (r "City")) "";
    state = or_else (str (r "StateOrProvince")) "";
    zip_code = or_else (str (r "PostalCode")) "";
    latitude = B.num (r "Latitude");
    longitude = B.num (r "Longitude");
    property_type =
        type_text (normalize_property_type (coalesce (r "PropertySubType") (r "PropertyType")));
    bedrooms = B.int (r "BedroomsTotal");
    bathrooms = B.num (r "BathroomsTotalInteger");
    square_feet = B.int (r "LivingArea");
    lot_size = B.num (r "LotSizeAcres");
    year_built = B.int (r "YearBuilt");
    subdivision = B.normalize_subdivision (r "SubdivisionName");
  }

  -- `none` where normalizeStatus gives what is no status, which the database's client refuses.
  unfoldable pub build_listing_data : Record → Option (ListingData Number)
  build_listing_data r = elim ((normalize_status (r "StandardStatus")).status) [
    | none ↦ none
    | some status ↦ some (record {
      mls_id = display_id (str (r "ListingId")) B.prefix;
      list_price = B.num (r "ListPrice");
      status = status;
      list_date = date_of B.parse_date (r "ListingContractDate");
      description = str (r "PublicRemarks");
      listing_agent_name = str (r "ListAgentFullName");
      listing_agent_email = str (r "ListAgentEmail");
      listing_agent_phone = str (r "ListAgentDirectPhone");
      brokerage_name = str (r "ListOfficeName");
      brokerage_phone = str (r "ListOfficePhone");
      bedrooms = B.int (r "BedroomsTotal");
      bathrooms = B.num (r "BathroomsTotalInteger");
      square_feet = B.int (r "LivingArea");
      raw_data = B.stringify (to_raw_data r);
      idx_displayable = is_idx_displayable r;
    })
  ]
