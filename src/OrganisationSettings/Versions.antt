-- ===== src/OrganisationSettings/Versions.antt =====
-- OrganisationSettings: what an upsert shows to `get`, and what a bump does to the versions.
use drasken_labs_communicati.Prelude.{
  suc, ◌≡◌, refl, ap, ◌∙◌, inl, inr, Text, Bool, true, false, List, [], ◌∷◌, ◌++◌, none, some,
  text_eq, text_eq_refl, text_eq_sound, truthy, arith, if◌then◌else◌, Bool-cases, Option-cases,
}
use drasken_labs_communicati.Prelude.Table.{
  find_first, update_first, find_first-update_first, find_first-update_other,
}
use drasken_labs_communicati.OrganisationSettings.{
  Settings, is_row, get, upsert, defaults, version_owner, cache_version_for, bump_payer_version,
  text_or_empty,
}

find_first-append :
    (q : Settings → Bool) (x : Settings) (rows : List Settings)
    → find_first q rows ≡ none
    → find_first q (rows ++ x ∷ []) ≡ (if q x then some x else none)
unfolding find_first
find_first-append q x [] h = refl
find_first-append q x (row ∷ rows) h = ground (arith, find_first-append q x rows)

find_first-append_other :
    (q : Settings → Bool) (x : Settings) (rows : List Settings)
    → q x ≡ false
    → find_first q (rows ++ x ∷ []) ≡ find_first q rows
unfolding find_first
find_first-append_other q x [] h = rw h
find_first-append_other q x (row ∷ rows) h = ground (arith, find_first-append_other q x rows)

upsert_new :
    (id : Text) (change : Settings → Settings) (rows : List Settings)
    → find_first (is_row id) rows ≡ none
    → upsert id change rows ≡ rows ++ change (defaults id) ∷ []
unfolding upsert
upsert_new id change rows h = ground arith

upsert_old :
    (id : Text) (change : Settings → Settings) (rows : List Settings) (row : Settings)
    → find_first (is_row id) rows ≡ some row
    → upsert id change rows ≡ update_first (is_row id) change rows
unfolding upsert
upsert_old id change rows row h = ground arith

module _ (change : Settings → Settings)
    (same_id : (row : Settings) → (change row).sso_org_id ≡ row.sso_org_id) where
  -- The row that is changed,
  pub get-upsert :
      (id : Text) (rows : List Settings) → get id (upsert id change rows) ≡ change (get id rows)
  unfolding get
  get-upsert id rows = elim (Option-cases (find_first (is_row id) rows)) [
    | inl missing ↦
        let mine : is_row id (change (defaults id)) ≡ true =
          ap (λ k. text_eq k id) (same_id (defaults id)) ∙ text_eq_refl id in
        let read = find_first-append (is_row id) (change (defaults id)) rows missing in
        rw (upsert_new id change rows missing, read, mine, missing) refl
    | inr (row, found) ↦
        let read =
          find_first-update_first (is_row id) change rows
            (λ r. ap (λ k. text_eq k id) (same_id r)) in
        rw (upsert_old id change rows row found, read, found) refl
  ]

  -- and the others.
  pub get-upsert_other :
      (id other : Text) (rows : List Settings)
      → text_eq id other ≡ false
      → get other (upsert id change rows) ≡ get other rows
  unfolding get
  get-upsert_other id other rows apart = elim (Option-cases (find_first (is_row id) rows)) [
    | inl missing ↦
        let not_mine : is_row other (change (defaults id)) ≡ false =
          ap (λ k. text_eq k other) (same_id (defaults id)) ∙ apart in
        let read = find_first-append_other (is_row other) (change (defaults id)) rows not_mine in
        rw (upsert_new id change rows missing, read) refl
    | inr (row, found) ↦
        let read = find_first-update_other (is_row id) (is_row other) change rows (λ r hit.
          let same = text_eq_sound r.sso_org_id id hit in
          let before = ap (λ k. text_eq k other) same ∙ apart in
          (before, ap (λ k. text_eq k other) (same_id r) ∙ before)) in
        rw (upsert_old id change rows row found, read) refl
  ]

abbrev raised : Settings → Settings
raised row = record row { payer_version = suc row.payer_version }

-- A bump changes no payer,
bump-agency :
    (id other : Text) (rows : List Settings)
    → (get other (bump_payer_version id rows)).agency_org_id ≡ (get other rows).agency_org_id
unfolding bump_payer_version
bump-agency id other rows = elim (Bool-cases (text_eq id other)) [
  | inl hit ↦
      let same = text_eq_sound id other hit in
      let read = get-upsert raised (λ r. refl) id rows in cc
  | inr miss ↦ let read = get-upsert_other raised (λ r. refl) id other rows miss in cc
]

pub version_owner-bump :
    (id other : Text) (rows : List Settings)
    → version_owner other (bump_payer_version id rows) ≡ version_owner other rows
unfolding version_owner
version_owner-bump id other rows =
    ap (λ a. if truthy a then text_or_empty a else other) (bump-agency id other rows)

-- and raises the version of every organisation that the payer answers for, and of no other.
pub cache_version_for-bump :
    (id other : Text) (rows : List Settings)
    → cache_version_for other (bump_payer_version id rows) ≡ (
        if text_eq id (version_owner other rows)
        then suc (cache_version_for other rows)
        else cache_version_for other rows)
unfolding cache_version_for bump_payer_version
cache_version_for-bump id other rows =
    let owner = version_owner other rows in
    let stays = version_owner-bump id other rows in
    elim (Bool-cases (text_eq id owner)) [
      | inl hit ↦
          let same = text_eq_sound id owner hit in
          let read = get-upsert raised (λ r. refl) id rows in cc
      | inr miss ↦ let read = get-upsert_other raised (λ r. refl) id owner rows miss in cc
    ]
