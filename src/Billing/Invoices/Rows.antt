-- ===== src/Billing/Invoices/Rows.antt =====
-- src/billing/invoice.service.ts and receipt.service.ts: the rows of the tables, and what an invoice is
-- written from.
use drasken_labs_communicati.Prelude.Int.{ℤ}
use drasken_labs_communicati.Prelude.{ℕ, Text, List, Option}
use drasken_labs_communicati.Billing.Gst.{TaxSplit}
use drasken_labs_communicati.Billing.InvoiceNumber.{Part}
use drasken_labs_communicati.Billing.Invoices.Draft.{InvoiceRequest, InvoiceLine}
use drasken_labs_communicati.Billing.Invoices.Wording.{Division, TaxIdentity}

-- The settings of a deployment that the service reads, and what it asks of the language.
pub record Config : Type 1 where
  pub Zone : Type 0
  pub format_to_parts : ℕ → Zone → List Part
  pub to_upper_case : Text → Text
  pub time_zone : Zone
  pub invoice_series : Option Text
  pub tax_rate_bps : ℕ
  pub tax_label : Option Text
  pub sac_code : Option Text
  pub seller_gstin : Option Text

pub record User : Type 0 where
  pub email : Option Text
  pub first_name : Option Text
  pub last_name : Option Text

pub record Invoice : Type 0 where
  pub id : ℕ
  pub number : Text
  pub financial_year : Text
  pub sequence : ℕ
  pub razorpay_payment_id : Text
  pub razorpay_invoice_id : Option Text
  pub payment_id : Option ℕ
  pub sso_org_id : Text
  pub billing_group_id : Option ℕ
  pub billed_to_name : Option Text
  pub billed_to_email : Option Text
  pub organisation_name : Option Text
  pub summary : Option Text
  pub payment_method : Option Text
  pub period_start : Option ℕ
  pub period_end : Option ℕ
  pub subtotal : ℤ
  pub tax_amount : ℕ
  pub tax_rate_bps : ℕ
  pub tax_label : Option Text
  pub cgst_amount : ℕ
  pub sgst_amount : ℕ
  pub igst_amount : ℕ
  pub billed_to_gstin : Option Text
  pub billed_to_address : Option Text
  pub place_of_supply : Option Text
  pub place_of_supply_code : Option Text
  pub sac_code : Option Text
  pub total : ℤ
  pub currency : Text
  pub issued_at : ℕ
  pub paid_at : Option ℕ
  pub emailed_at : Option ℕ
  pub emailed_to : Option Text
  pub lines : List InvoiceLine

pub record Receipt : Type 0 where
  pub id : ℕ
  pub number : Text
  pub financial_year : Text
  pub sequence : ℕ
  pub invoice_id : ℕ
  pub razorpay_payment_id : Text
  pub sso_org_id : Text
  pub billed_to_name : Option Text
  pub billed_to_email : Option Text
  pub organisation_name : Option Text
  pub summary : Option Text
  pub amount : ℤ
  pub currency : Text
  pub payment_method : Option Text
  pub payment_reference : Text
  pub issued_at : ℕ
  pub received_at : Option ℕ
  pub emailed_at : Option ℕ
  pub emailed_to : Option Text

-- `InvoiceCounter` and `ReceiptCounter`: a year and its next number.
abbrev pub Counter : Type 0
Counter = List (Text × ℕ)

pub record Books : Type 0 where
  pub invoices : List Invoice
  pub receipts : List Receipt
  pub invoice_counter : Counter
  pub receipt_counter : Counter
  pub next_id : ℕ
  pub next_receipt_id : ℕ

-- What `record` has gathered before its transaction: the invoice without a number.
pub record Prepared : Type 0 where
  pub series : Text
  pub year : Text
  pub issued_at : ℕ
  pub billed_to_name : Option Text
  pub billed_to_email : Option Text
  pub organisation_name : Option Text
  pub buyer : TaxIdentity
  pub division : Division
  pub split : TaxSplit
  pub tax_label : Option Text
  pub sac_code : Option Text
  pub summary : Option Text
  pub lines : List InvoiceLine
  pub request : InvoiceRequest
