-- ===== src/Auth/OrgAccess.antt =====
-- src/auth/org-access.service.ts: the grants of a session, which Redis keeps under its id. The SSO
-- and the directory of names are parameters; an SSO that does not answer gives `none`.
pub mod Belonging
pub mod Entitled
pub mod Switcher
mod Examples
use drasken_labs_communicati.Prelude.{
  Text, Bool, true, false, List, [], ◌∷◌, ◌++◌, Option, none, some, codes, text_eq, truthy, any,
  map, if◌then◌else◌,
}
use drasken_labs_communicati.Prelude.Table.{find_first}
use drasken_labs_communicati.OrganisationSettings.{Settings, get, client_roster}

pub data OrgGrant : Type 0 where
  member : OrgGrant
  agency : Text → OrgGrant

pub record OrgSummary : Type 0 where
  pub id : Text
  pub name : Text
  pub agency_org_id : Option Text

-- `SsoSessionData`. `grants` holds the object's own keys; the sign-in and `session` both write one.
pub record Session : Type 0 where
  pub sso_id : Text
  pub orgs : List OrgSummary
  pub grants : List (Text × OrgGrant)

unfoldable pub lookup {ℓ} : {A : Type ℓ} → Text → List (Text × A) → Option A
lookup key [] = none
lookup key ((k, a) ∷ entries) = if text_eq k key then some a else lookup key entries

-- `grantFor`'s result, a property of `Object.prototype` that it takes for a cached grant, or the SSO's
-- failure to answer.
pub data Answer : Type 0 where
  unavailable : Answer
  refused : Answer
  inherited : Answer
  granted : OrgGrant → Answer

unfoldable pub belongs : List OrgSummary → Text → Bool
belongs orgs id = any (λ o. text_eq o.id id) orgs

-- The part of `resolve` after the check of membership.
unfoldable pub as_agency : List OrgSummary → Option Text → Option OrgGrant
as_agency orgs none = none
as_agency orgs (some []) = none
as_agency orgs (some (c ∷ s)) = if belongs orgs (c ∷ s) then some (agency (c ∷ s)) else none

unfoldable pub resolve : List Settings → List OrgSummary → Text → Option OrgGrant
resolve settings orgs org_id =
    if belongs orgs org_id then some member else as_agency orgs (get org_id settings).agency_org_id

-- `record`.
abbrev pub with_grant : Text → OrgGrant → Session → Session
with_grant org_id grant session = record session { grants = (org_id, grant) ∷ session.grants }

abbrev pub write_grant :
    Text → Text → OrgGrant → Option Session → List (Text × Session) → List (Text × Session)
write_grant sid org_id grant none sessions = sessions
write_grant sid org_id grant (some session) sessions =
    (sid, with_grant org_id grant session) ∷ sessions

unfoldable pub record_grant : Text → Text → OrgGrant → List (Text × Session) → List (Text × Session)
record_grant sid org_id grant sessions = write_grant sid org_id grant (lookup sid sessions) sessions

-- The lines of `grantFor` after the cached grant, of what `resolve` found.
abbrev pub keep_grant :
    Text → Text → Option OrgGrant → List (Text × Session) → Answer × List (Text × Session)
keep_grant sid org_id none sessions = (refused, sessions)
keep_grant sid org_id (some grant) sessions =
    (granted grant, record_grant sid org_id grant sessions)

-- The properties that every plain object inherits, each of which is truthy.
abbrev pub prototype_names : List Text
prototype_names =
    codes "constructor"
    ∷ codes "__defineGetter__"
    ∷ codes "__defineSetter__"
    ∷ codes "hasOwnProperty"
    ∷ codes "__lookupGetter__"
    ∷ codes "__lookupSetter__"
    ∷ codes "isPrototypeOf"
    ∷ codes "propertyIsEnumerable"
    ∷ codes "toString"
    ∷ codes "valueOf"
    ∷ codes "__proto__"
    ∷ codes "toLocaleString"
    ∷ []

unfoldable pub is_inherited : Text → Bool
is_inherited key = any (λ name. text_eq name key) prototype_names

-- `session.grants[orgId]`: an own key first, else what the object inherits.
abbrev pub use_cached :
    Option OrgGrant
    → Bool
    → Answer × List (Text × Session)
    → List (Text × Session)
    → Answer × List (Text × Session)
use_cached (some grant) on_prototype fresh sessions = (granted grant, sessions)
use_cached none true fresh sessions = (inherited, sessions)
use_cached none false fresh sessions = fresh

unfoldable pub grant_in :
    List Settings → Text → Text → Session → List (Text × Session) → Answer × List (Text × Session)
grant_in settings sid org_id session sessions =
    use_cached (lookup org_id session.grants) (is_inherited org_id)
      (keep_grant sid org_id (resolve settings session.orgs org_id) sessions) sessions

module _ (list_organizations : Text → Option (List OrgSummary)) (sso_id_of : Text → Text) where
  -- `session`, rebuilt.
  abbrev pub rebuilt : Text → List OrgSummary → Session
  rebuilt token orgs = record { sso_id = sso_id_of token; orgs = orgs; grants = [] }

  -- `grantFor`, of the session that is there or of the SSO's answer.
  unfoldable pub grant_from :
      List Settings
      → Text
      → Text
      → Text
      → Option Session
      → Option (List OrgSummary)
      → List (Text × Session)
      → Answer × List (Text × Session)
  grant_from settings sid org_id token (some session) listed sessions =
      grant_in settings sid org_id session sessions
  grant_from settings sid org_id token none none sessions = (unavailable, sessions)
  grant_from settings sid org_id token none (some orgs) sessions =
      grant_in settings sid org_id (rebuilt token orgs) ((sid, rebuilt token orgs) ∷ sessions)

  unfoldable pub grant_for :
      List Settings → Text → Text → Text → List (Text × Session) → Answer × List (Text × Session)
  grant_for settings sid org_id token sessions =
      grant_from settings sid org_id token (lookup sid sessions) (list_organizations token) sessions

module _ (directory_name : Text → Option Text) where
  -- The name of a client in the switcher.
  abbrev pub directory_or_default : Option Text → Text
  directory_or_default none = codes "Client"
  directory_or_default (some name) = name

  abbrev pub client_name_or : Option Text → Text → Text
  client_name_or none id = directory_or_default (directory_name id)
  client_name_or (some name) id = name

  abbrev pub to_client : Text → Text × Option Text → OrgSummary
  to_client agency_id (id, name) = record {
    id = id;
    name = client_name_or name id;
    agency_org_id = some agency_id;
  }

  -- The loop of `withClients`.
  unfoldable pub clients_in : List Settings → List OrgSummary → List OrgSummary
  clients_in settings [] = []
  clients_in settings (org ∷ orgs) =
      let rest = clients_in settings orgs in
      if (get org.id settings).is_agency
      then map (to_client org.id) (client_roster org.id settings) ++ rest
      else rest

  unfoldable pub with_clients : List Settings → List OrgSummary → List OrgSummary
  with_clients settings orgs = orgs ++ clients_in settings orgs
