-- ===== src/Billing/InvoiceNumber/Examples.antt =====
-- Runs of src/billing/invoice.number.ts, and its theorems at concrete inputs.
use drasken_labs_communicati.Prelude.{ℕ, ◌≡◌, ◌↔◌, refl, codes, true, false, ◌%◌, arith, decimal}
use drasken_labs_communicati.Billing.InvoiceNumber.{
  invoice_number, receipt_number, is_invoice_number, is_receipt_number, document_number, year_of,
  financial_year_label, pad_start, zeros, two,
}
use drasken_labs_communicati.Billing.InvoiceNumber.Recognised.{number-IsRecognised}
use drasken_labs_communicati.Billing.InvoiceNumber.Distinct.{document_number-injective}
use drasken_labs_communicati.Billing.InvoiceNumber.Years.{year_of_iff, book}

first_invoice : invoice_number (codes "WAC") (codes "2627") 1 ≡ codes "INV-WAC-2627-0001"
unfolding invoice_number document_number pad_start zeros decimal
first_invoice = refl

beyond_the_width : receipt_number (codes "WAC") (codes "2627") 10000 ≡ codes "RCT-WAC-2627-10000"
unfolding receipt_number document_number pad_start zeros decimal
beyond_the_width = refl

last_of_march : year_of (2026, 3) ≡ codes "2526"
unfolding year_of two pad_start zeros decimal
last_of_march = refl

turn_of_century : year_of (2099, 4) ≡ codes "9900"
unfolding year_of two pad_start zeros decimal
turn_of_century = refl

spoken : financial_year_label (codes "2627") ≡ codes "2026-27"
unfolding financial_year_label
spoken = refl

number-IsRecognised_example :
    (is_invoice_number (invoice_number (codes "WAC") (codes "2627") 12) ≡ true)
    × (is_receipt_number (invoice_number (codes "WAC") (codes "2627") 12) ≡ false)
    × (is_receipt_number (receipt_number (codes "WAC") (codes "2627") 12) ≡ true)
    × (is_invoice_number (receipt_number (codes "WAC") (codes "2627") 12) ≡ false)
number-IsRecognised_example =
    number-IsRecognised (codes "WAC") (codes "2627") 12 refl (omega arith) (omega arith) refl refl

document_number-injective_example :
    (codes "INV" ≡ codes "INV")
    × (codes "WAC" ≡ codes "WAC")
    × (codes "2627" ≡ codes "2627")
    × (◌≡◌ {A = ℕ} 12345 12345)
document_number-injective_example =
    document_number-injective (codes "INV") (codes "INV") (codes "WAC") (codes "WAC") (codes "2627")
      (codes "2627") 12345 12345 refl refl refl refl refl refl refl

year_of_iff_example :
    (year_of (2026, 4) ≡ year_of (2027, 3)) ↔ (book 2026 4 % 100 ≡ book 2027 3 % 100)
year_of_iff_example =
    year_of_iff 2026 4 2027 3 (omega arith) (omega arith) (omega arith) (omega arith) (omega arith)
      (omega arith)
