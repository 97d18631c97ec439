-- ===== src/OrganisationSettings/Examples.antt =====
-- Runs of OrganisationSettings, and its theorem at a concrete input.
use drasken_labs_communicati.Prelude.{◌≡◌, refl, codes, [], ◌∷◌, none, some, text_eq, if◌then◌else◌}
use drasken_labs_communicati.Billing.Gst.{
  state_code_of_gstin, fold_digit, index_of, check_sum, gstin_check_digit, lookup_state, fits,
  is_gstin, state_name,
}
use drasken_labs_communicati.OrganisationSettings.{
  state_name, disagree, clean, store_tax, TaxInput, TaxDetails, Settings, set_tax_details, stored,
  tax_details, get, with_tax, billing_scope, upsert, defaults, bump_payer_version,
  cache_version_for, billing_org_for, clients_of, client_rows, version_owner,
}
use drasken_labs_communicati.OrganisationSettings.Tax.{AreConsistent, set_tax_details-AreConsistent}
use drasken_labs_communicati.Prelude.Table.{update_first, find_first}
use drasken_labs_communicati.Prelude.Trim.{trim_start, trim, is_space}

abbrev client : Settings
client = record (defaults (codes "client")) { agency_org_id = some (codes "agency") }

scope_of_client :
    billing_scope (codes "client") (client ∷ []) ≡ codes "agency" ∷ codes "client" ∷ []
unfolding billing_scope billing_org_for clients_of get client_rows find_first text_eq
scope_of_client = refl

raised_by_agency :
    cache_version_for (codes "client") (bump_payer_version (codes "agency") (client ∷ [])) ≡ 1
unfolding cache_version_for get find_first bump_payer_version upsert text_eq version_owner
raised_by_agency = refl

abbrev form : TaxInput
form = record {
  gstin = some (codes " 27AAPFU0939F1ZV ");
  legal_name = some (codes "  ");
  billing_address = none;
  billing_city = some (codes "Pune");
  billing_postal_code = none;
  state_code = none;
}

abbrev kept : TaxDetails
kept = record {
  gstin = some (codes "27AAPFU0939F1ZV");
  legal_name = none;
  billing_address = none;
  billing_city = some (codes "Pune");
  billing_postal_code = none;
  state_code = some (codes "27");
  state_name = some (codes "Maharashtra");
}

form_is_stored :
    set_tax_details (λ s. s) (codes "client") form (client ∷ [])
    ≡ stored kept (with_tax kept client ∷ [])
unfolding set_tax_details store_tax clean disagree upsert trim is_gstin fits lookup_state
    gstin_check_digit check_sum index_of fold_digit state_code_of_gstin text_eq find_first
    update_first trim_start is_space state_name
form_is_stored = refl

set_tax_details-AreConsistent_example :
    AreConsistent kept.gstin kept.state_code
    × (tax_details (codes "client") (with_tax kept client ∷ []) ≡ kept)
    × (get (codes "agency") (with_tax kept client ∷ []) ≡ (
        if text_eq (codes "client") (codes "agency")
        then with_tax kept (get (codes "client") (client ∷ []))
        else get (codes "agency") (client ∷ [])))
set_tax_details-AreConsistent_example =
    set_tax_details-AreConsistent (λ s. s) (codes "client") (codes "agency") form (client ∷ [])
      (with_tax kept client ∷ []) kept form_is_stored
