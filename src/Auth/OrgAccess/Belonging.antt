-- ===== src/Auth/OrgAccess/Belonging.antt =====
-- Auth/OrgAccess: the test of membership.
use drasken_labs_communicati.Prelude.{
  ◌≡◌, ◌⊎◌, ◌∙◌, sym, ap, inl, inr, Text, true, false, List, [], ◌∷◌, text_eq, text_eq_sound,
  text_eq_refl, Bool-cases, arith,
}
use drasken_labs_communicati.Auth.OrgAccess.{OrgSummary, belongs}

-- One of the organisations has the id.
abbrev pub BelongsTo : Text → List OrgSummary → Type 0
BelongsTo id [] = ⊥
BelongsTo id (o ∷ orgs) = (o.id ≡ id) ⊎ BelongsTo id orgs

pub belongs-BelongsTo :
    (id : Text) (orgs : List OrgSummary) → belongs orgs id ≡ true → BelongsTo id orgs
unfolding belongs
belongs-BelongsTo id [] h = cc
belongs-BelongsTo id (o ∷ orgs) h = elim (Bool-cases (text_eq o.id id)) [
  | inl same ↦ inl (text_eq_sound o.id id same)
  | inr other ↦ inr (belongs-BelongsTo id orgs (ground arith))
]

pub BelongsTo-belongs :
    (id : Text) (orgs : List OrgSummary) → BelongsTo id orgs → belongs orgs id ≡ true
unfolding belongs
BelongsTo-belongs id [] h = absurd h
BelongsTo-belongs id (o ∷ orgs) (inl same) =
    let hit : text_eq o.id id ≡ true = ap (text_eq o.id) (sym same) ∙ text_eq_refl o.id in
    ground arith
BelongsTo-belongs id (o ∷ orgs) (inr later) =
    let rest = BelongsTo-belongs id orgs later in ground arith

pub not_belonging :
    (id : Text) (orgs : List OrgSummary) → belongs orgs id ≡ false → ¬ BelongsTo id orgs
not_belonging id orgs h inside = let hit = BelongsTo-belongs id orgs inside in cc
