-- ===== src/Auth/OrgAccess/Examples.antt =====
-- Runs of Auth/OrgAccess, and its theorems at concrete inputs.
use drasken_labs_communicati.Prelude.{
  text_eq, ◌≡◌, refl, Text, codes, true, [], ◌∷◌, none, some, List, Option, All,
}
use drasken_labs_communicati.OrganisationSettings.{get, Settings, defaults}
use drasken_labs_communicati.Auth.OrgAccess.{
  record_grant, as_agency, belongs, resolve, grant_in, lookup, grant_from, OrgSummary, granted,
  is_inherited, inherited, refused, agency, grant_for, with_clients,
}
use drasken_labs_communicati.Auth.OrgAccess.Switcher.{MayEnter, HasUniqueIds, with_clients-MayEnter}
use drasken_labs_communicati.Prelude.Table.{find_first}

abbrev rows : List Settings
rows =
    record (defaults (codes "client")) { agency_org_id = some (codes "agency") }
    ∷ record (defaults (codes "agency")) { is_agency = true }
    ∷ []

abbrev mine : List OrgSummary
mine = record { id = codes "agency"; name = codes "Agency"; agency_org_id = none } ∷ []

-- The SSO names the organisations of any token.
abbrev sso : Text → Option (List OrgSummary)
sso token = some mine

enters_client :
    (grant_for sso (λ t. t) rows (codes "s1") (codes "client") (codes "token") []).0
    ≡ granted (agency (codes "agency"))
unfolding grant_for grant_from grant_in is_inherited lookup resolve belongs as_agency record_grant
    get find_first text_eq
enters_client = refl

stays_out :
    (grant_for sso (λ t. t) rows (codes "s1") (codes "other") (codes "token") []).0 ≡ refused
unfolding grant_for grant_from grant_in is_inherited lookup resolve belongs as_agency record_grant
    get find_first text_eq
stays_out = refl

enters_constructor :
    (grant_for sso (λ t. t) rows (codes "s1") (codes "constructor") (codes "token") []).0
    ≡ inherited
unfolding grant_for grant_from grant_in is_inherited lookup text_eq
enters_constructor = refl

with_clients-MayEnter_example : All (MayEnter rows mine) (with_clients (λ id. none) rows mine)
unfolding HasUniqueIds find_first text_eq
with_clients-MayEnter_example =
    with_clients-MayEnter (λ id. none) rows mine (refl, (refl, tt)) (refl, tt)
