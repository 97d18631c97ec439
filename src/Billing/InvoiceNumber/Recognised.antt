-- ===== src/Billing/InvoiceNumber/Recognised.antt =====
-- src/billing/invoice.number.ts: a number that is printed is recognised, and only as its kind.
use drasken_labs_communicati.Prelude.{
  ℕ, zero, suc, ◌-◌, ◌≤◌, ◌≡◌, refl, ◌∙◌, Text, codes, decimal, length, all, is_digit, is_alnum,
  true, false, [], ◌∷◌, ◌++◌, all-decimal, length-append, append-nil, arith,
}
use drasken_labs_communicati.Prelude.Pattern.{
  at_end, literal, repeat, star, literal-append, literal-apart, repeat-append, star-append,
}
use drasken_labs_communicati.Billing.InvoiceNumber.{
  zeros, pad_start, document_number, invoice_number, receipt_number, is_position,
  is_year_and_position, is_document_number, is_invoice_number, is_receipt_number, sequence_width,
}

length-zeros : (n : ℕ) → length (zeros n) ≡ n
unfolding zeros
length-zeros zero = refl
length-zeros (suc n) = omega (arith, length-zeros n)

all-zeros : (n : ℕ) (s : Text) → all is_digit s ≡ true → all is_digit (zeros n ++ s) ≡ true
unfolding zeros
all-zeros zero s h = h
all-zeros (suc n) s h = ground (arith, all-zeros n s)

all-pad_start :
    (width : ℕ) (s : Text) → all is_digit s ≡ true → all is_digit (pad_start width s) ≡ true
unfolding pad_start
all-pad_start width s h = all-zeros (width - length s) s h

length-pad_start : (width : ℕ) (s : Text) → width ≤ length (pad_start width s)
unfolding pad_start
length-pad_start width s =
    omega (arith, length-append (zeros (width - length s)) s, length-zeros (width - length s))

star-digits : (s : Text) → all is_digit s ≡ true → star is_digit at_end s ≡ true
unfolding at_end
star-digits s h = rw append-nil at (star-append is_digit at_end s [] h refl)

is_position-digits : (s : Text) → all is_digit s ≡ true → 4 ≤ length s → is_position s ≡ true
unfolding is_position repeat
is_position-digits (a ∷ b ∷ c ∷ d ∷ s) h lo = ground (arith, star-digits s)
is_position-digits [] h lo = absurd (omega arith)
is_position-digits (a ∷ []) h lo = absurd (omega arith)
is_position-digits (a ∷ b ∷ []) h lo = absurd (omega arith)
is_position-digits (a ∷ b ∷ c ∷ []) h lo = absurd (omega arith)

is_year_and_position-digits :
    (year s : Text)
    → all is_digit year ≡ true
    → length year ≡ 4
    → is_position s ≡ true
    → is_year_and_position (year ++ b'-' ∷ s) ≡ true
unfolding is_year_and_position literal
is_year_and_position-digits year s y four h =
    repeat-append is_digit 4 0 (literal (codes "-") is_position) year (b'-' ∷ s) y (omega arith)
      (omega arith) (ground arith)

-- A document number of any kind, of a series of two to eight capitals and digits and a year of
-- four digits, is recognised as one of its kind.
pub is_document_number-document_number :
    (kind series year : Text) (sequence : ℕ)
    → all is_alnum series ≡ true
    → 2 ≤ length series
    → length series ≤ 8
    → all is_digit year ≡ true
    → length year ≡ 4
    → is_document_number kind (document_number kind series year sequence) ≡ true
unfolding is_document_number document_number is_year_and_position literal
is_document_number-document_number kind series year sequence s lo hi y four =
    let position = pad_start sequence_width (decimal sequence) in
    let known = is_year_and_position-digits year position y four (
      is_position-digits position (all-pad_start 4 (decimal sequence) (all-decimal sequence))
        (length-pad_start 4 (decimal sequence))) in
    literal-append kind
      (literal (codes "-") (repeat is_alnum 2 6 (literal (codes "-") is_year_and_position)))
      (b'-' ∷ series ++ (b'-' ∷ year ++ (b'-' ∷ position)))
    ∙ repeat-append is_alnum 2 6 (literal (codes "-") is_year_and_position) series
        (b'-' ∷ year ++ (b'-' ∷ position)) s lo hi known

-- Only as its kind: a text is never recognised as both.
is_invoice_number-is_receipt_number :
    (value : Text) → is_invoice_number value ≡ true → is_receipt_number value ≡ false
unfolding is_invoice_number is_receipt_number is_document_number
is_invoice_number-is_receipt_number value h =
    literal-apart b'I' b'R' (codes "NV") (codes "CT")
      (literal (codes "-") (repeat is_alnum 2 6 (literal (codes "-") is_year_and_position)))
      (literal (codes "-") (repeat is_alnum 2 6 (literal (codes "-") is_year_and_position))) value
      refl h

-- An invoice's number is recognised as an invoice's and a receipt's as a receipt's, and neither as
-- the other, for a series of two to eight capitals and digits and a year of four digits.
pub number-IsRecognised :
    (series year : Text) (sequence : ℕ)
    → all is_alnum series ≡ true
    → 2 ≤ length series
    → length series ≤ 8
    → all is_digit year ≡ true
    → length year ≡ 4
    → (is_invoice_number (invoice_number series year sequence) ≡ true)
      × (is_receipt_number (invoice_number series year sequence) ≡ false)
      × (is_receipt_number (receipt_number series year sequence) ≡ true)
      × (is_invoice_number (receipt_number series year sequence) ≡ false)
unfolding is_invoice_number is_receipt_number invoice_number receipt_number
number-IsRecognised series year sequence s lo hi y four =
    let printed =
      is_document_number-document_number (codes "INV") series year sequence s lo hi y four in
    let received =
      is_document_number-document_number (codes "RCT") series year sequence s lo hi y four in
    let other = is_invoice_number-is_receipt_number (receipt_number series year sequence) in
    (
      printed,
      is_invoice_number-is_receipt_number (invoice_number series year sequence) printed,
      received,
      ground arith,
    )
