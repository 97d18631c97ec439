-- ===== src/Billing/InvoiceNumber.antt =====
-- src/billing/invoice.number.ts: the numbers of invoices and receipts.
pub mod Recognised
pub mod Distinct
pub mod Years
mod Examples
use drasken_labs_communicati.Prelude.{
  ℕ, zero, suc, ◌+◌, ◌-◌, ◌%◌, Text, codes, decimal, value_from, length, take, drop, text_eq,
  is_digit, is_alnum, Bool, true, false, ◌&&◌, List, [], ◌∷◌, ◌++◌, Option, none, some, leb, ◌==◌,
  if◌then◌else◌,
}
use drasken_labs_communicati.Prelude.Pattern.{at_end, literal, repeat, star}
use drasken_labs_communicati.Prelude.Table.{find_first}

-- `SEQUENCE_WIDTH`.
abbrev pub sequence_width : ℕ
sequence_width = 4

-- `padStart(width, '0')`.
unfoldable pub zeros : ℕ → Text
zeros zero = []
zeros (suc n) = b'0' ∷ zeros n

unfoldable pub pad_start : ℕ → Text → Text
pad_start width s = zeros (width - length s) ++ s

-- `two`; a year is not negative here.
unfoldable pub two : ℕ → Text
two year = pad_start 2 (decimal (year % 100))

-- One part that `formatToParts` returns.
pub record Part : Type 0 where
  pub kind : Text
  pub value : Text

module _ {Zone : Type 0} (format_to_parts : ℕ → Zone → List Part) where
  -- `value(type)` in `localParts`; the parts that are asked for are written in digits.
  unfoldable pub part_value : Text → List Part → ℕ
  part_value kind parts = elim (find_first (λ p. text_eq p.kind kind) parts) [
    | none ↦ 0
    | some p ↦ value_from 0 p.value
  ]

  unfoldable pub local_parts : ℕ → Zone → ℕ × ℕ
  local_parts date zone =
      let parts = format_to_parts date zone in
      (part_value (codes "year") parts, part_value (codes "month") parts)

-- `financialYear`, of the local year and month; the year before year 0 is -1, whose `two` is "-1".
unfoldable pub year_of : ℕ × ℕ → Text
year_of (year, month) =
    if leb 4 month
    then two year ++ two (year + 1)
    else if year == 0
    then codes "-1" ++ two 0
    else two (year - 1) ++ two year

unfoldable pub financial_year : {Zone : Type 0} → (ℕ → Zone → List Part) → ℕ → Zone → Text
financial_year format_to_parts date zone = year_of (local_parts format_to_parts date zone)

unfoldable pub financial_year_label : Text → Text
financial_year_label year = codes "20" ++ (take 2 year ++ (codes "-" ++ drop 2 year))

unfoldable pub document_number : Text → Text → Text → ℕ → Text
document_number kind series financial_year sequence =
    kind
    ++ (b'-' ∷ series
        ++ (b'-' ∷ financial_year ++ (b'-' ∷ pad_start sequence_width (decimal sequence))))

unfoldable pub invoice_number : Text → Text → ℕ → Text
invoice_number series financial_year sequence =
    document_number (codes "INV") series financial_year sequence

unfoldable pub receipt_number : Text → Text → ℕ → Text
receipt_number series financial_year sequence =
    document_number (codes "RCT") series financial_year sequence

-- `^kind-[A-Z0-9]{2,8}-\d{4}-\d{4,}$`.
unfoldable pub is_position : Text → Bool
is_position = repeat is_digit 4 0 (star is_digit at_end)

unfoldable pub is_year_and_position : Text → Bool
is_year_and_position = repeat is_digit 4 0 (literal (codes "-") is_position)

unfoldable pub is_document_number : Text → Text → Bool
is_document_number kind value =
    literal kind
      (literal (codes "-") (repeat is_alnum 2 6 (literal (codes "-") is_year_and_position))) value

unfoldable pub is_invoice_number : Text → Bool
is_invoice_number value = is_document_number (codes "INV") value

unfoldable pub is_receipt_number : Text → Bool
is_receipt_number value = is_document_number (codes "RCT") value
