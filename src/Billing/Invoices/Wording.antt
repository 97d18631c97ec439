-- ===== src/Billing/Invoices/Wording.antt =====
-- src/billing/invoice.service.ts: the words on the document, the division of a charge into tax, and
-- the customer's tax identity.
use drasken_labs_communicati.Prelude.Words.{or_else, or_value, join, present, split, or_null}
use drasken_labs_communicati.Prelude.Table.{find_first}
use drasken_labs_communicati.Prelude.Trim.{trim}
use drasken_labs_communicati.Prelude.{
  ℕ, zero, suc, ◌+◌, ◌-◌, ◌*◌, Text, codes, decimal, Bool, true, false, List, [], ◌∷◌, ◌++◌, Option,
  none, some, map, length, text_eq, if◌then◌else◌,
}
use drasken_labs_communicati.Billing.Gst.{place_of_supply_label, state_code_of_gstin}
use drasken_labs_communicati.OrganisationSettings.{Settings, is_row}
use drasken_labs_communicati.Billing.Invoices.Draft.{round_div, DraftLine}

-- `new Set`, of the names that are there, each where it is first met.
unfoldable pub holds : Text → List Text → Bool
holds w [] = false
holds w (v ∷ vs) = if text_eq w v then true else holds w vs

unfoldable pub distinct : List Text → List Text → List Text
distinct seen [] = []
distinct seen (w ∷ ws) =
    let fresh = w ∷ distinct (w ∷ seen) ws in
    let old = distinct seen ws in if holds w seen then old else fresh

abbrev pub counted_plans : ℕ → List Text → Text
counted_plans n (name ∷ []) = decimal n ++ (codes " client plans " ++ (8212 ∷ b' ' ∷ name))
counted_plans n _ = decimal n ++ codes " client plans"

unfoldable pub summarise : List DraftLine → Option Text
summarise [] = none
summarise (d ∷ []) = some (or_value d.plan_name (codes "Subscription"))
summarise (d ∷ e ∷ rest) = some (
    counted_plans (length (d ∷ e ∷ rest))
      (distinct [] (present (map (λ l. l.plan_name) (d ∷ e ∷ rest)))))

-- `divide`: the taxable value, the tax and the rate.
pub record Division : Type 0 where
  pub subtotal : ℕ
  pub tax_amount : ℕ
  pub tax_rate_bps : ℕ

unfoldable pub divide : ℕ → ℕ → Division
divide zero total = record { subtotal = total; tax_amount = 0; tax_rate_bps = 0 }
divide (suc rate) total =
    let subtotal = round_div (total * 10000) (10000 + suc rate) in
    record { subtotal = subtotal; tax_amount = total - subtotal; tax_rate_bps = suc rate }

-- `taxIdentity`.
pub record TaxIdentity : Type 0 where
  pub gstin : Option Text
  pub address : Option Text
  pub state_code : Option Text

-- The lines of the parts that are there, each trimmed.
abbrev pub lines_of : Option Text → List Text
lines_of none = []
lines_of (some []) = []
lines_of (some (c ∷ s)) = split 10 (c ∷ s)

unfoldable pub all_lines : List (Option Text) → List (Option Text)
all_lines [] = []
all_lines (part ∷ parts) = map (λ line. some (trim line)) (lines_of part) ++ all_lines parts

unfoldable pub identity_of : Settings → TaxIdentity
identity_of row =
    let code = or_else row.state_code (state_code_of_gstin row.gstin) in
    record {
      gstin = row.gstin;
      address = or_null (
          join (codes "\n") (
            present (
              all_lines (
                row.legal_name
                ∷ row.billing_address
                ∷ some
                    (join (codes " ") (present (row.billing_city ∷ row.billing_postal_code ∷ [])))
                ∷ place_of_supply_label code
                ∷ []))));
      state_code = code;
    }

unfoldable pub tax_identity : Text → List Settings → TaxIdentity
tax_identity id settings = elim (find_first (is_row id) settings) as (λ _. TaxIdentity) [
  | none ↦ record { gstin = none; address = none; state_code = none }
  | some row ↦ identity_of row
]
