-- ===== src/Billing/Invoices/Examples.antt =====
-- Runs of src/billing/invoice.service.ts, and its theorems at concrete inputs.
use drasken_labs_communicati.Prelude.Int.{pos, negsuc, ◌-ℤ◌}
use drasken_labs_communicati.Prelude.{
  if◌then◌else◌, Bool, if◌then◌else◌, decimal_from, ℕ, ◌≡◌, ◌↔◌, refl, Text, codes, text_eq, true,
  List, [], ◌∷◌, map, Option, none, some, All, decimal, value_from,
}
use drasken_labs_communicati.OrganisationSettings.{Settings}
use drasken_labs_communicati.Billing.InvoiceNumber.{
  is_position, is_year_and_position, document_number, invoice_number, is_document_number, Part,
  is_invoice_number, financial_year, year_of, local_parts, part_value, two, pad_start, zeros,
}
use drasken_labs_communicati.Billing.Invoices.Draft.{
  client_label, InvoiceRequest, Client, DraftLine, apportion, allocate, total_weight, round_div,
  drafts, drafts_for, group_drafts, client_draft,
}
use drasken_labs_communicati.Billing.Invoices.Rows.{Receipt, Config, User, Invoice, Books, Prepared}
use drasken_labs_communicati.Billing.Invoices.Store.{
  next_sequence, to_receipt, prepare, commit, record_invoice, series, is_series, by_payment, raise,
  to_invoice,
}
use drasken_labs_communicati.Billing.Invoices.Views.{
  matching, find_for_orgs, readable, own_lines, find, invoice, to_dto_for, find_addressed_to,
}
use drasken_labs_communicati.Billing.Invoices.Closing.{Closes, record_invoice-Closes}
use drasken_labs_communicati.Billing.Invoices.Numbering.{
  IsNumbered, run, no_books, series-IsNumbered,
}
use drasken_labs_communicati.Billing.Invoices.Once.{commit-again}
use drasken_labs_communicati.Billing.Invoices.Lookup.{IsWritten, number-IsUnique}
use drasken_labs_communicati.Billing.Invoices.Extract.{extract-hides, IsShown}
use drasken_labs_communicati.Prelude.OneOf.{IsOneOf}
use drasken_labs_communicati.Billing.Invoices.Reading.{invoice-IsShown, find_addressed_to_iff}
use drasken_labs_communicati.Prelude.Pattern.{star, literal, repeat, at_end}
use drasken_labs_communicati.Prelude.Table.{update_row, find_first}
use drasken_labs_communicati.Billing.Invoices.Wording.{holds, divide}
use drasken_labs_communicati.Billing.Invoices.Delivery.{
  for_invoice, insert_oldest, oldest_first, pending, stamp, deliver, deliver_each, deliver_pending,
}

abbrev pro_line : Text → ℕ → DraftLine
pro_line id weight = record {
  sso_org_id = some id;
  description = codes "Pro";
  detail = none;
  plan_code = some (codes "pro");
  plan_name = some (codes "Pro");
  quantity = 1;
  weight = weight;
}

-- One rupee over three equal lines: the last takes the odd paisa.
thirds :
    map
      (λ line. line.amount)
      (apportion
        (pro_line (codes "a") 7 ∷ pro_line (codes "b") 7 ∷ pro_line (codes "c") 7 ∷ [])
        100)
    ≡ pos 33 ∷ pos 33 ∷ pos 34 ∷ []
unfolding apportion allocate round_div ◌-ℤ◌ total_weight
thirds = refl

-- Two paise over four equal lines: the last line is below nothing.
two_paise :
    map
      (λ line. line.amount)
      (apportion
        (pro_line (codes "a") 1
          ∷ pro_line (codes "b") 1
          ∷ pro_line (codes "c") 1
          ∷ pro_line (codes "d") 1
          ∷ [])
        2)
    ≡ pos 1 ∷ pos 1 ∷ pos 1 ∷ negsuc 0 ∷ []
unfolding apportion allocate round_div ◌-ℤ◌ total_weight
two_paise = refl

abbrev in_april : ℕ → Text → List Part
in_april date zone =
    record { kind = codes "month"; value = codes "4" }
    ∷ record { kind = codes "year"; value = codes "2026" }
    ∷ []

abbrev deployment : Config
deployment = record {
  Zone = Text;
  format_to_parts = in_april;
  to_upper_case = λ s. s;
  time_zone = codes "Asia/Kolkata";
  invoice_series = none;
  tax_rate_bps = 1800;
  tax_label = none;
  sac_code = none;
  seller_gstin = some (codes "27AAPFU0939F1ZV");
}

abbrev debit : Text → Text → Option ℕ → ℕ → InvoiceRequest
debit payment org group amount = record {
  payment_id = some 5;
  razorpay_payment_id = payment;
  razorpay_invoice_id = none;
  sso_org_id = org;
  billing_group_id = group;
  user_id = 1;
  plan_code = some (codes "pro");
  plan_name = some (codes "Pro");
  amount = amount;
  currency = codes "INR";
  paid_at = some 1000;
  method = some (codes "upi");
  method_detail = none;
  period_start = none;
  period_end = none;
}

abbrev user : ℕ → Option User
user id = some (record {
  email = some (codes "asha@example.com");
  first_name = some (codes "Asha");
  last_name = none;
})

abbrev unnamed : Text → Option Text
unnamed id = none

abbrev two_clients : ℕ → List Client
two_clients group =
    record {
      sso_org_id = codes "a";
      plan = some (record { code = codes "pro"; name = codes "Pro"; price = some 900 });
    }
    ∷ record { sso_org_id = codes "b"; plan = none }
    ∷ []

abbrev no_settings : List Settings
no_settings = []

abbrev job : Text → Text → Option ℕ → ℕ → Prepared
job payment org group amount =
    prepare deployment user unnamed two_clients no_settings (debit payment org group amount) 2000

abbrev agency_job : Prepared
agency_job = job (codes "pay_1") (codes "agency") (some 3) 106200

abbrev own_job : Prepared
own_job = job (codes "pay_2") (codes "b") none 118000

abbrev books : Books
books = run (agency_job ∷ own_job ∷ agency_job ∷ []) no_books

written :
    map (λ i. i.number) books.invoices ≡ codes "INV-WAC-2627-0002" ∷ codes "INV-WAC-2627-0001" ∷ []
unfolding prepare drafts drafts_for group_drafts client_draft client_label commit raise to_invoice
    to_receipt by_payment next_sequence run invoice_number document_number pad_start zeros decimal
    decimal_from financial_year year_of two local_parts part_value value_from find_first text_eq
    series is_series repeat at_end apportion allocate round_div total_weight
written = refl

record_invoice-Closes_example :
    Closes
      (record_invoice deployment user unnamed two_clients no_settings
        (debit (codes "pay_3") (codes "agency") (some 3) 106201)
        2000
        no_books).0
    × All Closes
        (record_invoice deployment user unnamed two_clients no_settings
          (debit (codes "pay_3") (codes "agency") (some 3) 106201)
          2000
          no_books).1.invoices
record_invoice-Closes_example =
    record_invoice-Closes deployment user unnamed two_clients no_settings
      (debit (codes "pay_3") (codes "agency") (some 3) 106201) 2000 no_books tt

series-IsNumbered_example : IsNumbered (run (agency_job ∷ own_job ∷ agency_job ∷ []) no_books)
series-IsNumbered_example = series-IsNumbered (agency_job ∷ own_job ∷ agency_job ∷ [])

commit-again_example :
    commit agency_job (run (own_job ∷ []) (commit agency_job no_books).1)
    ≡ ((commit agency_job no_books).0, run (own_job ∷ []) (commit agency_job no_books).1)
commit-again_example = commit-again agency_job agency_job (own_job ∷ []) no_books refl

jobs-IsWritten : All IsWritten (agency_job ∷ own_job ∷ [])
unfolding prepare series is_series repeat at_end financial_year year_of local_parts part_value
    find_first text_eq value_from two pad_start zeros decimal
jobs-IsWritten = ((refl, refl), ((refl, refl), tt))

number-IsUnique_example :
    All
      (λ i. find i.number (run (agency_job ∷ own_job ∷ []) no_books) ≡ some i)
      (run (agency_job ∷ own_job ∷ []) no_books).invoices
number-IsUnique_example = number-IsUnique (agency_job ∷ own_job ∷ []) jobs-IsWritten

abbrev agency_invoice : Invoice
agency_invoice = (commit agency_job no_books).0

abbrev hidden : Invoice
hidden = record agency_invoice {
  lines = own_lines (codes "b") agency_invoice.lines;
  subtotal = pos 1;
  total = pos 2;
  tax_amount = 3;
  tax_rate_bps = 4;
  cgst_amount = 5;
  sgst_amount = 6;
  igst_amount = 7;
  tax_label = none;
  place_of_supply = none;
  billed_to_gstin = none;
  emailed_to = none;
}

extract-hides_example : to_dto_for hidden (codes "b") ≡ to_dto_for agency_invoice (codes "b")
unfolding text_eq commit by_payment find_first raise to_invoice prepare apportion own_lines allocate
    divide total_weight drafts drafts_for group_drafts client_draft
extract-hides_example =
    extract-hides agency_invoice (codes "b") (own_lines (codes "b") agency_invoice.lines) (pos 1)
      (pos 2) 3 4 5 6 7 none none none none refl refl

shown_to_client :
    invoice (codes "b") (codes "INV-WAC-2627-0001") books
    ≡ some (to_dto_for agency_invoice (codes "b"))
unfolding invoice readable find_for_orgs find holds is_invoice_number is_document_number literal
    star is_year_and_position is_position prepare drafts drafts_for group_drafts client_draft
    client_label commit raise to_invoice to_receipt by_payment next_sequence run invoice_number
    document_number pad_start zeros decimal decimal_from financial_year year_of two local_parts
    part_value value_from find_first text_eq series is_series repeat at_end apportion allocate
    round_div total_weight
shown_to_client = refl

invoice-IsShown_example :
    (i : Invoice) × (find (codes "INV-WAC-2627-0001") books ≡ some i)
    × (to_dto_for agency_invoice (codes "b") ≡ to_dto_for i (codes "b"))
    × IsShown (codes "b") (to_dto_for agency_invoice (codes "b"))
invoice-IsShown_example =
    invoice-IsShown (codes "b") (codes "INV-WAC-2627-0001") books
      (to_dto_for agency_invoice (codes "b")) shown_to_client

find_addressed_to_iff_example :
    (find_addressed_to (codes "firm" ∷ codes "agency" ∷ []) (codes "INV-WAC-2627-0001") books
      ≡ some agency_invoice)
    ↔ ((is_invoice_number (codes "INV-WAC-2627-0001") ≡ true)
        × (find (codes "INV-WAC-2627-0001") books ≡ some agency_invoice)
        × IsOneOf agency_invoice.sso_org_id (codes "firm" ∷ codes "agency" ∷ []))
find_addressed_to_iff_example =
    find_addressed_to_iff (codes "firm" ∷ codes "agency" ∷ []) (codes "INV-WAC-2627-0001") books
      agency_invoice

-- Mail that takes what is addressed to the agency alone.
abbrev mail : Invoice → Option Receipt → Option Bool
mail i receipt = if text_eq i.sso_org_id (codes "agency") then some true else none

went : (deliver_pending mail 3000 25 books).0 ≡ 1
unfolding prepare drafts drafts_for group_drafts client_draft client_label commit raise to_invoice
    to_receipt by_payment next_sequence run invoice_number document_number pad_start zeros decimal
    decimal_from financial_year year_of two local_parts part_value value_from find_first text_eq
    series is_series repeat at_end apportion allocate round_div total_weight deliver_pending
    deliver_each deliver stamp pending oldest_first insert_oldest matching for_invoice update_row
went = refl

stamped :
    map (λ i. i.emailed_at) (deliver_pending mail 3000 25 books).1.invoices ≡ none ∷ some 3000 ∷ []
unfolding prepare drafts drafts_for group_drafts client_draft client_label commit raise to_invoice
    to_receipt by_payment next_sequence run invoice_number document_number pad_start zeros decimal
    decimal_from financial_year year_of two local_parts part_value value_from find_first text_eq
    series is_series repeat at_end apportion allocate round_div total_weight deliver_pending
    deliver_each deliver stamp pending oldest_first insert_oldest matching for_invoice update_row
stamped = refl
