-- ===== src/OrganisationSettings.antt =====
-- src/organisation-settings/organisation-settings.service.ts: who pays for an organisation, which
-- version its cached answers carry, and its tax identity. The table is a list of rows.
pub mod Tax
pub mod Versions
mod Examples
use drasken_labs_communicati.Prelude.Words.{or_else}
use drasken_labs_communicati.Prelude.{
  ℕ, suc, Text, Bool, true, false, not, ◌&&◌, List, [], ◌∷◌, ◌++◌, Option, none, some, map, text_eq,
  truthy, if◌then◌else◌,
}
use drasken_labs_communicati.Prelude.Table.{find_first, update_first}
use drasken_labs_communicati.Prelude.Trim.{trim}
use drasken_labs_communicati.Billing.Gst.{is_gstin, state_code_of_gstin, state_name}

-- `model OrganisationSettings`, the columns that this service reads and writes.
pub record Settings : Type 0 where
  pub sso_org_id : Text
  pub agency_org_id : Option Text
  pub is_agency : Bool
  pub client_name : Option Text
  pub payer_version : ℕ
  pub gstin : Option Text
  pub legal_name : Option Text
  pub billing_address : Option Text
  pub billing_city : Option Text
  pub billing_postal_code : Option Text
  pub state_code : Option Text

-- `DEFAULTS`, which is also what the columns of a new row default to.
abbrev pub defaults : Text → Settings
defaults id = record {
  sso_org_id = id;
  agency_org_id = none;
  is_agency = false;
  client_name = none;
  payer_version = 0;
  gstin = none;
  legal_name = none;
  billing_address = none;
  billing_city = none;
  billing_postal_code = none;
  state_code = none;
}

abbrev pub is_row : Text → Settings → Bool
is_row id row = text_eq row.sso_org_id id

abbrev pub or_default : Text → Option Settings → Settings
or_default id none = defaults id
or_default id (some row) = row

-- `get`.
unfoldable pub get : Text → List Settings → Settings
get id rows = or_default id (find_first (is_row id) rows)

-- `upsert`, of one change to the row that is there or to a new one.
unfoldable pub upsert : Text → (Settings → Settings) → List Settings → List Settings
upsert id change rows = elim (find_first (is_row id) rows) [
  | none ↦ rows ++ change (defaults id) ∷ []
  | some row ↦ update_first (is_row id) change rows
]

-- `clean`.
unfoldable pub clean : Option Text → Option Text
clean none = none
clean (some value) = elim (trim value) as (λ _. Option Text) [ [] ↦ none | c ∷ s ↦ some (c ∷ s) ]

pub record TaxDetails : Type 0 where
  pub gstin : Option Text
  pub legal_name : Option Text
  pub billing_address : Option Text
  pub billing_city : Option Text
  pub billing_postal_code : Option Text
  pub state_code : Option Text
  pub state_name : Option Text

-- `taxDetails`: a row that is missing reads as empty columns.
unfoldable pub tax_details : Text → List Settings → TaxDetails
tax_details id rows =
    let row = get id rows in
    let code = or_else row.state_code (state_code_of_gstin row.gstin) in
    record {
      gstin = row.gstin;
      legal_name = row.legal_name;
      billing_address = row.billing_address;
      billing_city = row.billing_city;
      billing_postal_code = row.billing_postal_code;
      state_code = code;
      state_name = state_name code;
    }

-- The input of `setTaxDetails`; a field that is absent or null is `none`.
pub record TaxInput : Type 0 where
  pub gstin : Option Text
  pub legal_name : Option Text
  pub billing_address : Option Text
  pub billing_city : Option Text
  pub billing_postal_code : Option Text
  pub state_code : Option Text

-- The three errors of `setTaxDetails`.
pub data TaxError : Type 0 where
  invalid_gstin : TaxError
  unknown_state : Text → TaxError
  states_disagree : Text → Text → TaxError

pub data TaxResult : Type 0 where
  refused : TaxError → TaxResult
  stored : TaxDetails → List Settings → TaxResult

-- `chosen && fromGstin && chosen !== fromGstin`.
unfoldable pub disagree : Option Text → Option Text → Bool
disagree (some (c ∷ s)) (some (d ∷ t)) = not (text_eq (c ∷ s) (d ∷ t))
disagree _ _ = false

abbrev pub text_or_empty : Option Text → Text
text_or_empty none = []
text_or_empty (some s) = s

abbrev pub with_tax : TaxDetails → Settings → Settings
with_tax d row = record row {
  gstin = d.gstin;
  legal_name = d.legal_name;
  billing_address = d.billing_address;
  billing_city = d.billing_city;
  billing_postal_code = d.billing_postal_code;
  state_code = d.state_code;
}

-- The lines from the check of the GSTIN on, of the cleaned GSTIN and the state chosen.
unfoldable pub store_tax : Text → TaxInput → Option Text → Option Text → List Settings → TaxResult
store_tax id input gstin chosen rows =
    let from_gstin = state_code_of_gstin gstin in
    let code = or_else chosen from_gstin in
    let details : TaxDetails = record {
      gstin = gstin;
      legal_name = clean input.legal_name;
      billing_address = clean input.billing_address;
      billing_city = clean input.billing_city;
      billing_postal_code = clean input.billing_postal_code;
      state_code = code;
      state_name = state_name code;
    } in
    if truthy gstin && not (is_gstin gstin)
    then refused invalid_gstin
    else if truthy chosen && not (truthy (state_name chosen))
    then refused (unknown_state (text_or_empty chosen))
    else if disagree chosen from_gstin
    then refused (states_disagree (text_or_empty from_gstin) (text_or_empty chosen))
    else stored details (upsert id (with_tax details) rows)

-- `toUpperCase` is the language's, for the whole of Unicode.
module _ (to_upper_case : Text → Text) where
  abbrev pub upper : Option Text → Option Text
  upper none = none
  upper (some s) = some (to_upper_case s)

  unfoldable pub set_tax_details : Text → TaxInput → List Settings → TaxResult
  set_tax_details id input rows =
      store_tax id input (upper (clean input.gstin)) (clean input.state_code) rows

unfoldable pub billing_org_for : Text → List Settings → Text
billing_org_for id rows = elim (get id rows).agency_org_id [ none ↦ id | some agency ↦ agency ]

-- The row whose version counts: `!settings.agencyOrgId` takes an empty id for none.
unfoldable pub version_owner : Text → List Settings → Text
version_owner id rows =
    if truthy (get id rows).agency_org_id then text_or_empty (get id rows).agency_org_id else id

unfoldable pub cache_version_for : Text → List Settings → ℕ
cache_version_for id rows = (get (version_owner id rows) rows).payer_version

abbrev pub names : Text → Option Text → Bool
names id none = false
names id (some agency) = text_eq agency id

unfoldable pub client_rows : Text → List Settings → List Settings
client_rows id [] = []
client_rows id (row ∷ rows) =
    let rest = client_rows id rows in if names id row.agency_org_id then row ∷ rest else rest

unfoldable pub clients_of : Text → List Settings → List Text
clients_of id rows = map (λ row. row.sso_org_id) (client_rows id rows)

-- `clientRoster`, of rows in the order of their creation.
unfoldable pub client_roster : Text → List Settings → List (Text × Option Text)
client_roster id rows = map (λ row. (row.sso_org_id, row.client_name)) (client_rows id rows)

unfoldable pub billing_scope : Text → List Settings → List Text
billing_scope id rows = let payer = billing_org_for id rows in payer ∷ clients_of payer rows

unfoldable pub bump_payer_version : Text → List Settings → List Settings
bump_payer_version id rows =
    upsert id (λ row. record row { payer_version = suc row.payer_version }) rows
