-- ===== src/Mls/Roster.antt =====
-- The roster of members and offices, apps/mls-service/src/sync/roster.ts, with the prefixes of
-- apps/mls-service/src/connectors/reso/prefix.ts and the columns of `MlsAgent` and `MlsOffice` in
-- packages/db/prisma/schema.prisma. The tables are those of the configuration's provider.
pub mod Upserts
use Prim.Native.String.{len, slice, ◌++◌}
use text.Mathlib.Text.{starts_with}
use frontstead_kit.Prelude.{ℕ, String, Bool, true, false, Option, none, some, str_eq, if◌then◌else◌}
use frontstead_kit.Db.{Table}
use frontstead_kit.Mls.Value.{Value, Record, str, date_of}

-- stripPrefix
unfoldable pub strip_prefix : String → Option String → String
strip_prefix value none = value
strip_prefix value (some prefix) =
    if str_eq prefix ""
    then value
    else if starts_with value prefix
    then slice value (len prefix) (len value)
    else value

-- addPrefix
unfoldable pub add_prefix : String → Option String → String
add_prefix value none = value
add_prefix value (some prefix) =
    if str_eq prefix "" then value else if starts_with value prefix then value else prefix ++ value

pub record Agent : Type 0 where
  pub mls_id : Option String
  pub first_name : Option String
  pub last_name : Option String
  pub name : Option String
  pub email : Option String
  pub phone : Option String
  pub state_license : Option String
  pub status : Option String
  pub office_key : Option String
  pub office_mls_id : Option String
  pub raw_data : Record
  pub modified_at : Option ℕ

pub record Office : Type 0 where
  pub mls_id : Option String
  pub name : Option String
  pub phone : Option String
  pub address : Option String
  pub city : Option String
  pub zip_code : Option String
  pub status : Option String
  pub raw_data : Record
  pub modified_at : Option ℕ

-- `rawMlsId ? stripPrefix(rawMlsId, prefix) : null`
abbrev pub display_id : Option String → Option String → Option String
display_id none prefix = none
display_id (some id) prefix = some (strip_prefix id prefix)

module _ (parse_date : String → Option ℕ) (prefix : Option String) where
  abbrev pub agent_of : Record → Agent
  agent_of r = record {
    mls_id = display_id (str (r "MemberMlsId")) prefix;
    first_name = str (r "MemberFirstName");
    last_name = str (r "MemberLastName");
    name = str (r "MemberFullName");
    email = str (r "MemberEmail");
    phone = str (r "MemberMobilePhone");
    state_license = str (r "MemberStateLicense");
    status = str (r "MemberStatus");
    office_key = str (r "OfficeKey");
    office_mls_id = str (r "OfficeMlsId");
    raw_data = r;
    modified_at = date_of parse_date (r "ModificationTimestamp");
  }

  abbrev pub office_of : Record → Office
  office_of r = record {
    mls_id = display_id (str (r "OfficeMlsId")) prefix;
    name = str (r "OfficeName");
    phone = str (r "OfficePhone");
    address = str (r "OfficeAddress1");
    city = str (r "OfficeCity");
    zip_code = str (r "OfficePostalCode");
    status = str (r "OfficeStatus");
    raw_data = r;
    modified_at = date_of parse_date (r "ModificationTimestamp");
  }

  pub upsert_agent : (T : Table Agent) → Record → Table.State T → Table.State T × Bool
  upsert_agent T r s = elim (str (r "MemberKey")) [
    | none ↦ (s, false)
    | some id ↦ (Table.put T s id (agent_of r), true)
  ]

  pub upsert_office : (T : Table Office) → Record → Table.State T → Table.State T × Bool
  upsert_office T r s = elim (str (r "OfficeKey")) [
    | none ↦ (s, false)
    | some id ↦ (Table.put T s id (office_of r), true)
  ]
