-- ===== src/Billing/InvoiceNumber/Distinct.antt =====
-- src/billing/invoice.number.ts: two documents never print the same number.
use drasken_labs_communicati.Prelude.{
  has_no, cut_at, ℕ, zero, suc, ◌-◌, ◌≡◌, refl, sym, ap, ◌∙◌, Text, decimal, value_from, all,
  length, is_digit, is_alnum, true, [], ◌∷◌, ◌++◌, value_from-decimal, arith,
}
use drasken_labs_communicati.Billing.InvoiceNumber.{zeros, pad_start, document_number}

value_from-zeros : (n : ℕ) (s : Text) → value_from 0 (zeros n ++ s) ≡ value_from 0 s
unfolding zeros value_from
value_from-zeros zero s = refl
value_from-zeros (suc n) s = value_from-zeros n s

pub value_from-pad_start : (width n : ℕ) → value_from 0 (pad_start width (decimal n)) ≡ n
unfolding pad_start
value_from-pad_start width n =
    value_from-zeros (width - length (decimal n)) (decimal n) ∙ value_from-decimal n

alnum_without_hyphen : (s : Text) → all is_alnum s ≡ true → has_no b'-' s ≡ true
alnum_without_hyphen [] h = refl
alnum_without_hyphen (c ∷ s) h = ground (arith, alnum_without_hyphen s)

digits_without_hyphen : (s : Text) → all is_digit s ≡ true → has_no b'-' s ≡ true
digits_without_hyphen [] h = refl
digits_without_hyphen (c ∷ s) h = ground (arith, digits_without_hyphen s)

-- Two documents with the same number, of any kinds and series of capitals and digits and years of
-- digits, are of one kind, one series, one year and one place in it: a number is never used twice,
-- and past 9999 it grows instead of wrapping.
pub document_number-injective :
    (kind kind' series series' year year' : Text) (sequence sequence' : ℕ)
    → all is_alnum kind ≡ true
    → all is_alnum kind' ≡ true
    → all is_alnum series ≡ true
    → all is_alnum series' ≡ true
    → all is_digit year ≡ true
    → all is_digit year' ≡ true
    → document_number kind series year sequence ≡ document_number kind' series' year' sequence'
    → (kind ≡ kind') × (series ≡ series') × (year ≡ year') × (sequence ≡ sequence')
unfolding document_number
document_number-injective kind kind' series series' year year' n n' k k' s s' y y' e =
    let (same_kind, e1) =
      cut_at b'-' kind kind' (series ++ (b'-' ∷ year ++ (b'-' ∷ pad_start 4 (decimal n))))
        (series' ++ (b'-' ∷ year' ++ (b'-' ∷ pad_start 4 (decimal n'))))
        (alnum_without_hyphen kind k) (alnum_without_hyphen kind' k') e in
    let (same_series, e2) =
      cut_at b'-' series series' (year ++ (b'-' ∷ pad_start 4 (decimal n)))
        (year' ++ (b'-' ∷ pad_start 4 (decimal n'))) (alnum_without_hyphen series s)
        (alnum_without_hyphen series' s') e1 in
    let (same_year, e3) =
      cut_at b'-' year year' (pad_start 4 (decimal n)) (pad_start 4 (decimal n'))
        (digits_without_hyphen year y) (digits_without_hyphen year' y') e2 in
    (
      same_kind,
      same_series,
      same_year,
      sym (value_from-pad_start 4 n) ∙ ap (value_from 0) e3 ∙ value_from-pad_start 4 n',
    )
