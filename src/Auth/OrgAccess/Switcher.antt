-- ===== src/Auth/OrgAccess/Switcher.antt =====
-- Auth/OrgAccess: what the switcher lists may be entered.
use drasken_labs_communicati.Prelude.{
  ◌≡◌, refl, sym, ap, subst, ◌∙◌, inl, inr, Text, true, List, [], ◌∷◌, ◌++◌, Option, none, some,
  text_eq_sound, text_eq_refl, All, Bool-cases, arith, if◌then◌else◌, truthy, map,
}
use drasken_labs_communicati.Prelude.Table.{find_first}
use drasken_labs_communicati.OrganisationSettings.{
  Settings, get, is_row, or_default, names, client_rows, client_roster,
}
use drasken_labs_communicati.Auth.OrgAccess.{
  OrgGrant, OrgSummary, member, agency, belongs, as_agency, resolve, clients_in, with_clients,
  to_client,
}

-- Ids are unique: each row is the one that its id finds.
unfoldable pub HasUniqueIds : List Settings → Type 0
HasUniqueIds rows = All (λ row. find_first (is_row row.sso_org_id) rows ≡ some row) rows

-- A user with these organisations may enter another.
pub MayEnter : List Settings → List OrgSummary → OrgSummary → Type 0
MayEnter settings orgs o = (g : OrgGrant) × (resolve settings orgs o.id ≡ some g)

names-some : (id : Text) (o : Option Text) → names id o ≡ true → o ≡ some id
names-some id none h = cc
names-some id (some a) h = ap some (text_eq_sound a id h)

resolve_member :
    (settings : List Settings) (orgs : List OrgSummary) (o : OrgSummary)
    → belongs orgs o.id ≡ true
    → MayEnter settings orgs o
unfolding resolve MayEnter
resolve_member settings orgs o h = (
  member,
  ap (λ b. if b then some member else as_agency orgs (get o.id settings).agency_org_id) h,
)

resolve_client :
    (settings : List Settings) (orgs : List OrgSummary) (o : OrgSummary) (id : Text)
    → belongs orgs id ≡ true
    → truthy (some id) ≡ true
    → (get o.id settings).agency_org_id ≡ some id
    → MayEnter settings orgs o
unfolding resolve as_agency MayEnter
resolve_client settings orgs o [] inside full named = cc
resolve_client settings orgs o (c ∷ s) inside full named = elim (Bool-cases (belongs orgs o.id)) [
  | inl own ↦ resolve_member settings orgs o own
  | inr foreign ↦ (agency (c ∷ s), rw (foreign, named, inside) refl)
]

All-append {ℓ κ} :
    {A : Type ℓ} (P : A → Type κ) (xs ys : List A) → All P xs → All P ys → All P (xs ++ ys)
All-append P [] ys h k = k
All-append P (x ∷ xs) ys (h, hs) k = (h, All-append P xs ys hs k)

module _ (directory_name : Text → Option Text) (settings : List Settings)
    (orgs : List OrgSummary) where
  abbrev listed : Text → List Settings → List OrgSummary
  listed id rows =
      map (to_client directory_name id) (map (λ row. (row.sso_org_id, row.client_name)) rows)

  roster-MayEnter :
      (id : Text) (rows : List Settings)
      → belongs orgs id ≡ true
      → truthy (some id) ≡ true
      → All (λ row. find_first (is_row row.sso_org_id) settings ≡ some row) rows
      → All (MayEnter settings orgs) (listed id (client_rows id rows))
  unfolding client_rows get
  roster-MayEnter id [] inside full unique = tt
  roster-MayEnter id (row ∷ rows) inside full (one, unique) =
      let rest = client_rows id rows in
      let later = roster-MayEnter id rows inside full unique in
      elim (Bool-cases (names id row.agency_org_id)) [
        | inl theirs ↦
            let named = ap (λ o. (or_default row.sso_org_id o).agency_org_id) one in
            let client = to_client directory_name id (row.sso_org_id, row.client_name) in
            let entered =
              resolve_client settings orgs client id inside full
                (named ∙ names-some id row.agency_org_id theirs) in
            subst (λ b. All (MayEnter settings orgs) (listed id (if b then row ∷ rest else rest)))
              (sym theirs) (entered, later)
        | inr other ↦
            subst (λ b. All (MayEnter settings orgs) (listed id (if b then row ∷ rest else rest)))
              (sym other) later
      ]

  clients_in-MayEnter :
      (some_orgs : List OrgSummary)
      → All (λ o. (belongs orgs o.id ≡ true) × (truthy (some o.id) ≡ true)) some_orgs
      → HasUniqueIds settings
      → All (MayEnter settings orgs) (clients_in directory_name settings some_orgs)
  unfolding clients_in HasUniqueIds client_roster
  clients_in-MayEnter [] h unique = tt
  clients_in-MayEnter (o ∷ some_orgs) ((inside, full), hs) unique =
      let rest = clients_in directory_name settings some_orgs in
      let later = clients_in-MayEnter some_orgs hs unique in
      elim (Bool-cases (get o.id settings).is_agency) [
        | inl manages ↦
            subst
              (λ b.
                All (MayEnter settings orgs)
                  (if b then listed o.id (client_rows o.id settings) ++ rest else rest))
              (sym manages)
              (All-append (MayEnter settings orgs) (listed o.id (client_rows o.id settings)) rest
                (roster-MayEnter o.id settings inside full unique) later)
        | inr plain ↦
            subst
              (λ b.
                All (MayEnter settings orgs)
                  (if b then listed o.id (client_rows o.id settings) ++ rest else rest))
              (sym plain) later
      ]

belongs_later :
    (x : OrgSummary) (orgs others : List OrgSummary)
    → All (λ o. (belongs orgs o.id ≡ true) × (truthy (some o.id) ≡ true)) others
    → All (λ o. (belongs (x ∷ orgs) o.id ≡ true) × (truthy (some o.id) ≡ true)) others
unfolding belongs
belongs_later x orgs [] h = tt
belongs_later x orgs (o ∷ others) ((inside, full), hs) =
    ((ground arith, full), belongs_later x orgs others hs)

belongs_itself :
    (orgs : List OrgSummary)
    → All (λ o. truthy (some o.id) ≡ true) orgs
    → All (λ o. (belongs orgs o.id ≡ true) × (truthy (some o.id) ≡ true)) orgs
unfolding belongs
belongs_itself [] h = tt
belongs_itself (o ∷ orgs) (full, hs) =
    let me = text_eq_refl o.id in
    ((ground arith, full), belongs_later o orgs orgs (belongs_itself orgs hs))

members-MayEnter :
    (settings : List Settings) (orgs some_orgs : List OrgSummary)
    → All (λ o. (belongs orgs o.id ≡ true) × (truthy (some o.id) ≡ true)) some_orgs
    → All (MayEnter settings orgs) some_orgs
members-MayEnter settings orgs [] h = tt
members-MayEnter settings orgs (o ∷ some_orgs) ((inside, full), hs) =
    (resolve_member settings orgs o inside, members-MayEnter settings orgs some_orgs hs)

-- Every organisation that the switcher lists, whether the user's own or an agency's client, is one
-- that the user may enter, if the organisations' rows have unique ids and the user's organisations
-- have ids that are not empty.
pub with_clients-MayEnter :
    (directory_name : Text → Option Text) (settings : List Settings) (orgs : List OrgSummary)
    → HasUniqueIds settings
    → All (λ o. truthy (some o.id) ≡ true) orgs
    → All (MayEnter settings orgs) (with_clients directory_name settings orgs)
unfolding with_clients
with_clients-MayEnter directory_name settings orgs unique full =
    let inside = belongs_itself orgs full in
    All-append (MayEnter settings orgs) orgs (clients_in directory_name settings orgs)
      (members-MayEnter settings orgs orgs inside)
      (clients_in-MayEnter directory_name settings orgs orgs inside unique)
