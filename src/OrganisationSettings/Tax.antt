-- ===== src/OrganisationSettings/Tax.antt =====
-- OrganisationSettings: what `setTaxDetails` stores agrees with itself, and is what is read back.
use drasken_labs_communicati.Prelude.Words.{or_else}
use drasken_labs_communicati.Prelude.{
  ℕ, ◌≡◌, refl, sym, ap, ◌∙◌, ◌⊎◌, inl, inr, Text, true, false, List, [], ◌∷◌, Option, none, some,
  not, ◌&&◌, truthy, text_eq, text_eq_sound, arith, Bool-cases, if◌then◌else◌,
}
use drasken_labs_communicati.Prelude.Trim.{trim}
use drasken_labs_communicati.Billing.Gst.{is_gstin, state_code_of_gstin, state_name}
use drasken_labs_communicati.Billing.Gst.Completion.{state_code_of_gstin-is_gstin}
use drasken_labs_communicati.OrganisationSettings.{
  Settings, TaxDetails, TaxInput, stored, clean, store_tax, set_tax_details, tax_details, get,
  upsert, with_tax, disagree, upper,
}
use drasken_labs_communicati.OrganisationSettings.Versions.{get-upsert, get-upsert_other}

-- A GSTIN and a state that an invoice may carry: the GSTIN is empty, or it is valid and of that state.
pub AreConsistent : Option Text → Option Text → Type 0
AreConsistent gstin code =
    (truthy gstin ≡ false) ⊎ (is_gstin gstin ≡ true) × (code ≡ state_code_of_gstin gstin)

List-cases : (l : Text) → (l ≡ []) ⊎ ((c : ℕ) × (s : Text) × (l ≡ c ∷ s))
List-cases [] = inl refl
List-cases (c ∷ s) = inr (c, s, refl)

clean-cases :
    (o : Option Text) → (clean o ≡ none) ⊎ ((c : ℕ) × (s : Text) × (clean o ≡ some (c ∷ s)))
unfolding clean
clean-cases none = inl refl
clean-cases (some value) = elim (List-cases (trim value)) [
  | inl empty ↦ inl (ground arith)
  | inr (c, s, e) ↦ inr (c, s, ground arith)
]

-- A result that is stored passed the three checks.
store_tax-cases :
    (id : Text) (input : TaxInput) (gstin chosen : Option Text) (rows rows' : List Settings)
    (details : TaxDetails)
    → store_tax id input gstin chosen rows ≡ stored details rows'
    → ((truthy gstin && not (is_gstin gstin)) ≡ false)
      × (disagree chosen (state_code_of_gstin gstin) ≡ false)
      × (details.gstin ≡ gstin)
      × (details.state_code ≡ or_else chosen (state_code_of_gstin gstin))
      × (details.state_name ≡ state_name details.state_code)
      × (rows' ≡ upsert id (with_tax details) rows)
unfolding store_tax
store_tax-cases id input gstin chosen rows rows' details h = ground arith

disagree-false :
    (c d : ℕ) (s t : Text) → disagree (some (c ∷ s)) (some (d ∷ t)) ≡ false → c ∷ s ≡ d ∷ t
unfolding disagree
disagree-false c d s t h = text_eq_sound (c ∷ s) (d ∷ t) (ground arith)

-- The state chosen, where it does not disagree with that of a valid GSTIN, is that one.
chosen_state :
    (gstin chosen : Option Text)
    → is_gstin gstin ≡ true
    → (chosen ≡ none) ⊎ ((c : ℕ) × (s : Text) × (chosen ≡ some (c ∷ s)))
    → disagree chosen (state_code_of_gstin gstin) ≡ false
    → or_else chosen (state_code_of_gstin gstin) ≡ state_code_of_gstin gstin
chosen_state gstin chosen valid (inl nothing) h =
    ap (λ o. or_else o (state_code_of_gstin gstin)) nothing
chosen_state gstin chosen valid (inr (c, s, e)) h =
    let (d, d', f) = state_code_of_gstin-is_gstin gstin valid in
    let agree = disagree-false c d s (d' ∷ []) (rw (e, f) at h) in rw (e, f) (ap some agree)

store_tax-AreConsistent :
    (id : Text) (input : TaxInput) (gstin chosen : Option Text) (rows rows' : List Settings)
    (details : TaxDetails)
    → (chosen ≡ none) ⊎ ((c : ℕ) × (s : Text) × (chosen ≡ some (c ∷ s)))
    → store_tax id input gstin chosen rows ≡ stored details rows'
    → AreConsistent details.gstin details.state_code
unfolding AreConsistent
store_tax-AreConsistent id input gstin chosen rows rows' details shape h =
    let (checked, agree, g, code, name, after) =
      store_tax-cases id input gstin chosen rows rows' details h in
    elim (Bool-cases (is_gstin gstin)) [
      | inl valid ↦ inr (
        ap is_gstin g ∙ valid,
        code ∙ chosen_state gstin chosen valid shape agree ∙ ap state_code_of_gstin (sym g),
      )
      | inr invalid ↦ inl (ap truthy g ∙ ground arith)
    ]

get-store :
    (id other : Text) (details : TaxDetails) (rows : List Settings)
    → get other (upsert id (with_tax details) rows)
      ≡ (if text_eq id other then with_tax details (get id rows) else get other rows)
get-store id other details rows = elim (Bool-cases (text_eq id other)) [
  | inl hit ↦
      let same = text_eq_sound id other hit in
      let read = get-upsert (with_tax details) (λ r. refl) id rows in cc
  | inr miss ↦ let read = get-upsert_other (with_tax details) (λ r. refl) id other rows miss in cc
]

or_else_again :
    (chosen from : Option Text) → or_else (or_else chosen from) from ≡ or_else chosen from
or_else_again none none = refl
or_else_again none (some s) = refl
or_else_again (some s) from = refl

tax_details-store :
    (id : Text) (details : TaxDetails) (chosen : Option Text) (rows : List Settings)
    → details.state_code ≡ or_else chosen (state_code_of_gstin details.gstin)
    → details.state_name ≡ state_name details.state_code
    → tax_details id (upsert id (with_tax details) rows) ≡ details
unfolding tax_details
tax_details-store id details chosen rows code name =
    let read = get-upsert (with_tax details) (λ r. refl) id rows in
    let again : or_else details.state_code (state_code_of_gstin details.gstin)
        ≡ details.state_code =
      ap (λ o. or_else o (state_code_of_gstin details.gstin)) code
      ∙ or_else_again chosen (state_code_of_gstin details.gstin)
      ∙ sym code in
    rw (read, again, sym name) refl

-- Tax details that are stored, whatever was typed and whatever capitals do to it, are ones an
-- invoice may carry: the GSTIN is empty, or it is valid and of the state beside it. They are what
-- is then read back for the organisation, and every other organisation's row is as it was.
pub set_tax_details-AreConsistent :
    (to_upper_case : Text → Text) (id other : Text) (input : TaxInput) (rows rows' : List Settings)
    (details : TaxDetails)
    → set_tax_details to_upper_case id input rows ≡ stored details rows'
    → AreConsistent details.gstin details.state_code
      × (tax_details id rows' ≡ details)
      × (get other rows'
          ≡ (if text_eq id other then with_tax details (get id rows) else get other rows))
unfolding set_tax_details
set_tax_details-AreConsistent to_upper_case id other input rows rows' details h =
    let gstin = upper to_upper_case (clean input.gstin) in
    let chosen = clean input.state_code in
    let (checked, agree, g, code, name, after) =
      store_tax-cases id input gstin chosen rows rows' details h in
    (
      store_tax-AreConsistent id input gstin chosen rows rows' details
          (clean-cases input.state_code) h,
      ap (tax_details id) after
          ∙ tax_details-store id details chosen rows
              (code ∙ ap (λ o. or_else chosen (state_code_of_gstin o)) (sym g)) name,
      ap (get other) after ∙ get-store id other details rows,
    )
