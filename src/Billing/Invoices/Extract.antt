-- ===== src/Billing/Invoices/Extract.antt =====
-- src/billing/invoice.service.ts: what a client sees of an invoice that is addressed to its agency.
use drasken_labs_communicati.Prelude.Int.{ℤ}
use drasken_labs_communicati.Prelude.{
  ℕ, ◌≡◌, ◌≢◌, refl, ap, Text, text_eq, text_eq_sound, true, false, inl, inr, List, [], ◌∷◌, Option,
  All, any, ◌⊎◌, Bool-cases,
}
use drasken_labs_communicati.Billing.Invoices.Draft.{InvoiceLine}
use drasken_labs_communicati.Billing.Invoices.Rows.{Invoice}
use drasken_labs_communicati.Billing.Invoices.Views.{
  InvoiceDto, is_own_line, covers, own_lines, sum_amounts, to_dto, to_dto_for, extract_of,
}

-- What an organisation that is not the payer is shown is the same whatever the invoice's other lines are, and
-- whatever its total, subtotal and taxes, the payer's registration and its place of supply, and the address that it was sent to.
pub extract-hides :
    (i : Invoice) (id : Text) (lines : List InvoiceLine) (subtotal total : ℤ)
    (tax rate cgst sgst igst : ℕ) (label place gstin sent_to : Option Text)
    → text_eq i.sso_org_id id ≡ false
    → own_lines id lines ≡ own_lines id i.lines
    → to_dto_for
        (record i {
          lines = lines;
          subtotal = subtotal;
          total = total;
          tax_amount = tax;
          tax_rate_bps = rate;
          cgst_amount = cgst;
          sgst_amount = sgst;
          igst_amount = igst;
          tax_label = label;
          place_of_supply = place;
          billed_to_gstin = gstin;
          emailed_to = sent_to;
        })
        id
      ≡ to_dto_for i id
unfolding to_dto_for to_dto
extract-hides i id lines subtotal total tax rate cgst sgst igst label place gstin sent_to other
      same =
    rw other (
      ap
        (λ own. record (extract_of id i) {
          lines = own;
          subtotal = sum_amounts own;
          total = sum_amounts own;
        })
        same)

own_lines-AreOwn :
    (id : Text) (lines : List InvoiceLine)
    → All (λ line. is_own_line id line ≡ true) (own_lines id lines)
unfolding own_lines
own_lines-AreOwn id [] = tt
own_lines-AreOwn id (line ∷ lines) = elim (Bool-cases (is_own_line id line)) [
  | inl own ↦ rw own (own, own_lines-AreOwn id lines)
  | inr other ↦ rw other (own_lines-AreOwn id lines)
]

own_lines-present :
    (id : Text) (lines : List InvoiceLine)
    → any (is_own_line id) lines ≡ true
    → own_lines id lines ≢ []
unfolding own_lines
own_lines-present id [] h = cc
own_lines-present id (line ∷ lines) h = elim (Bool-cases (is_own_line id line)) [
  | inl own ↦ rw own (λ e. cc)
  | inr other ↦ rw other (own_lines-present id lines (rw other at h))
]

-- A document that an organisation may be shown: its own, or an extract that has lines, its own alone,
-- and their sum, and that has no PDF.
abbrev pub IsShown : Text → InvoiceDto → Type 0
IsShown id dto =
    (dto.sso_org_id ≡ id)
    ⊎ ((dto.extract ≡ true)
        × (dto.downloadable ≡ false)
        × (dto.lines ≢ [])
        × All (λ line. is_own_line id line ≡ true) dto.lines
        × (dto.total ≡ sum_amounts dto.lines))

pub to_dto_for-IsShown :
    (id : Text) (i : Invoice) → covers id i ≡ true → IsShown id (to_dto_for i id)
unfolding to_dto_for to_dto
to_dto_for-IsShown id i h = elim (Bool-cases (text_eq i.sso_org_id id)) [
  | inl own ↦ rw own (inl (text_eq_sound i.sso_org_id id own))
  | inr other ↦
      let lines = own_lines-present id i.lines (rw other at h) in
      rw other (inr (refl, refl, lines, own_lines-AreOwn id i.lines, refl))
]
