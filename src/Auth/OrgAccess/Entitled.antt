-- ===== src/Auth/OrgAccess/Entitled.antt =====
-- Auth/OrgAccess: what a session's grants have to do with the organisations it belongs to.
use drasken_labs_communicati.Prelude.{◌≡◌, ◌≢◌, Text, List, [], Option, none, some, All}
use drasken_labs_communicati.Prelude.OneOf.{IsOneOf}
use drasken_labs_communicati.Auth.OrgAccess.Belonging.{BelongsTo}
use drasken_labs_communicati.OrganisationSettings.{Settings, get}
use drasken_labs_communicati.Auth.OrgAccess.{
  OrgGrant, OrgSummary, Session, Answer, member, agency, unavailable, refused, granted, inherited,
  prototype_names,
}

-- Two ways in: membership, or membership of the agency that the organisation's row names.
pub IsEntitled : List Settings → List OrgSummary → Text → OrgGrant → Type 0
IsEntitled settings orgs org_id member = BelongsTo org_id orgs
IsEntitled settings orgs org_id (agency id) =
    (¬ BelongsTo org_id orgs)
    × (BelongsTo id orgs)
    × ((get org_id settings).agency_org_id ≡ some id)
    × (id ≢ [])

pub IsSound : List Settings → Session → Type 0
IsSound settings session =
    All (λ entry. IsEntitled settings session.orgs entry.0 entry.1) session.grants

unfoldable pub AreSound : List Settings → List (Text × Session) → Type 0
AreSound settings sessions = All (λ entry. IsSound settings entry.1) sessions

-- What an answer says of the organisations that the session belongs to.
pub IsRight : List Settings → List OrgSummary → Text → Answer → Type 0
IsRight settings orgs org_id unavailable = ⊥
IsRight settings orgs org_id refused = (g : OrgGrant) → ¬ IsEntitled settings orgs org_id g
IsRight settings orgs org_id inherited = IsOneOf org_id prototype_names
IsRight settings orgs org_id (granted grant) = IsEntitled settings orgs org_id grant

-- The organisations that the session or, without one, the SSO names.
unfoldable pub known_orgs : Option Session → Option (List OrgSummary) → Option (List OrgSummary)
known_orgs (some session) listed = some session.orgs
known_orgs none listed = listed
