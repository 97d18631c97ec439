-- ===== src/Billing/Invoices/Lookup.antt =====
-- src/billing/invoice.service.ts: a number on the books names one invoice, so that the unique index
-- on it never refuses a row.
use drasken_labs_communicati.Prelude.{
  ℕ, suc, ◌<◌, ◌≡◌, refl, ap, ◌∙◌, Text, text_eq, text_eq_refl, text_eq_sound, true, false, inl,
  inr, List, [], ◌∷◌, Option, none, some, All, all, is_alnum, is_digit, Bool-cases, arith, codes,
}
use drasken_labs_communicati.Prelude.Table.{find_first}
use drasken_labs_communicati.Billing.InvoiceNumber.{invoice_number}
use drasken_labs_communicati.Billing.InvoiceNumber.Distinct.{document_number-injective}
use drasken_labs_communicati.Billing.Invoices.Store.{
  next_sequence, by_payment, raise, raise_or, commit, to_invoice,
}
use drasken_labs_communicati.Billing.Invoices.Rows.{Invoice, Counter, Books, Prepared}
use drasken_labs_communicati.Billing.Invoices.Views.{find, has_number}
use drasken_labs_communicati.Billing.Invoices.Numbering.{
  run, no_books, next_of, taken_is_next, next_of-same, next_of-other,
}

-- A series of capitals and digits, and a year of digits.
abbrev pub IsWritten : Prepared → Type 0
IsWritten p = (all is_alnum p.series ≡ true) × (all is_digit p.year ≡ true)

-- The number of an invoice is printed of its year and its place, and the place is given out.
pub record IsNamed (counter : Counter) (i : Invoice) : Type 0 where
  pub series : Text
  pub series_alnum : all is_alnum series ≡ true
  pub year_digits : all is_digit i.financial_year ≡ true
  pub printed : i.number ≡ invoice_number series i.financial_year i.sequence
  pub given_out : i.sequence < next_of i.financial_year counter

next_of-grows :
    (year other : Text) (counter : Counter) (n : ℕ)
    → n < next_of other counter
    → n < next_of other (next_sequence year counter).1
next_of-grows year other counter n h = elim (Bool-cases (text_eq year other)) [
  | inl same ↦
      let here = text_eq_sound year other same in
      let more : next_of other (next_sequence year counter).1 ≡ suc (next_of other counter) =
        ap (λ y. next_of other (next_sequence y counter).1) here ∙ next_of-same other counter in
      omega (arith, more)
  | inr apart ↦ omega (arith, next_of-other year other counter apart)
]

IsNamed-grows :
    (year : Text) (counter : Counter) (i : Invoice)
    → IsNamed counter i
    → IsNamed (next_sequence year counter).1 i
IsNamed-grows year counter i h = record {
  series = h.series;
  series_alnum = h.series_alnum;
  year_digits = h.year_digits;
  printed = h.printed;
  given_out = next_of-grows year i.financial_year counter i.sequence h.given_out;
}

-- A new number is no other's.
new_number_differs :
    (p : Prepared) (id place : ℕ) (counter : Counter) (i : Invoice)
    → place ≡ next_of p.year counter
    → IsWritten p
    → IsNamed counter i
    → text_eq (to_invoice p id place).number i.number ≡ false
unfolding to_invoice invoice_number
new_number_differs p id place counter i next (s, y) h =
    elim (Bool-cases (text_eq (invoice_number p.series p.year place) i.number)) [
      | inl same ↦
          let printed = text_eq_sound (invoice_number p.series p.year place) i.number same in
          let (_, _, year, position) =
            document_number-injective (codes "INV") (codes "INV") p.series h.series p.year
              i.financial_year place i.sequence refl refl s h.series_alnum y h.year_digits
              (printed ∙ h.printed) in
          let here = h.given_out in
          let there : next_of p.year counter ≡ next_of i.financial_year counter =
            ap (λ z. next_of z counter) year in
          absurd (omega arith)
      | inr other ↦ other
    ]

-- Each invoice is found under its own number.
abbrev pub AreFound : List Invoice → List Invoice → Type 0
AreFound rows = All (λ i. find_first (has_number i.number) rows ≡ some i)

AreFound-next :
    (p : Prepared) (id place : ℕ) (counter : Counter) (rows some_rows : List Invoice)
    → place ≡ next_of p.year counter
    → IsWritten p
    → All (IsNamed counter) some_rows
    → AreFound rows some_rows
    → AreFound (to_invoice p id place ∷ rows) some_rows
unfolding find_first
AreFound-next p id place counter rows [] e w h k = tt
AreFound-next p id place counter rows (i ∷ more) e w (h, hs) (k, ks) = (
  rw (new_number_differs p id place counter i e w h) k,
  AreFound-next p id place counter rows more e w hs ks,
)

All-grows :
    (year : Text) (counter : Counter) (rows : List Invoice)
    → All (IsNamed counter) rows
    → All (IsNamed (next_sequence year counter).1) rows
All-grows year counter [] h = tt
All-grows year counter (i ∷ rows) (h, hs) =
    (IsNamed-grows year counter i h, All-grows year counter rows hs)

pub record IsIndexed (books : Books) : Type 0 where
  pub named : All (IsNamed books.invoice_counter) books.invoices
  pub found : AreFound books.invoices books.invoices

raise-IsIndexed :
    (p : Prepared) (books : Books) → IsWritten p → IsIndexed books → IsIndexed (raise p books).1
unfolding raise to_invoice find_first invoice_number next_sequence
raise-IsIndexed p books w h =
    let counter = books.invoice_counter in
    let (place, after) = next_sequence p.year counter in
    let invoice = to_invoice p books.next_id place in
    let taken : place ≡ next_of p.year counter = taken_is_next p.year counter in
    let named : IsNamed after invoice = record {
      series = p.series;
      series_alnum = w.0;
      year_digits = w.1;
      printed = refl;
      given_out = omega (arith, taken, next_of-same p.year counter);
    } in
    record {
      named = (named, All-grows p.year counter books.invoices h.named);
      found = (
        rw (text_eq_refl invoice.number) refl,
        AreFound-next p books.next_id place counter books.invoices books.invoices taken w h.named
            h.found,
      );
    }

raise_or-IsIndexed :
    (o : Option Invoice) (p : Prepared) (books : Books)
    → IsWritten p
    → IsIndexed books
    → IsIndexed (raise_or o p books).1
raise_or-IsIndexed none p books w h = raise-IsIndexed p books w h
raise_or-IsIndexed (some i) p books w h = h

run-IsIndexed :
    (jobs : List Prepared) (books : Books)
    → All IsWritten jobs
    → IsIndexed books
    → IsIndexed (run jobs books)
unfolding run commit
run-IsIndexed [] books w h = h
run-IsIndexed (p ∷ jobs) books (w, ws) h =
    run-IsIndexed jobs (commit p books).1 ws
      (raise_or-IsIndexed (by_payment p.request.razorpay_payment_id books) p books w h)

-- Whatever debits are invoiced and in whatever order, of series of capitals and digits and years of
-- digits: every invoice on the books is the one that is found under its number, so no two of them
-- print the same one.
pub number-IsUnique :
    (jobs : List Prepared)
    → All IsWritten jobs
    → All (λ i. find i.number (run jobs no_books) ≡ some i) (run jobs no_books).invoices
unfolding find
number-IsUnique jobs w = (run-IsIndexed jobs no_books w (record { named = tt; found = tt })).found
