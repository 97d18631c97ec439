-- ===== src/Billing/Invoices/Numbering.antt =====
-- src/billing/invoice.service.ts and receipt.service.ts: the counters, whatever payments are invoiced
-- and in whatever order their transactions commit.
use drasken_labs_communicati.Prelude.{
  ℕ, zero, suc, ◌≡◌, refl, ap, ◌∙◌, Text, text_eq, text_eq_refl, false, inl, inr, List, [], ◌∷◌,
  Option, none, some, Bool-cases, text_eq_sound, arith, if◌then◌else◌,
}
use drasken_labs_communicati.Billing.Invoices.Store.{
  next_sequence, by_payment, raise, raise_or, commit, to_invoice, to_receipt,
}
use drasken_labs_communicati.Billing.Invoices.Rows.{Invoice, Receipt, Counter, Books, Prepared}

-- The books before the first debit.
abbrev pub no_books : Books
no_books = record {
  invoices = [];
  receipts = [];
  invoice_counter = [];
  receipt_counter = [];
  next_id = 1;
  next_receipt_id = 1;
}

-- Transactions one after the other, as the row lock on the counter has them.
unfoldable pub run : List Prepared → Books → Books
run [] books = books
run (p ∷ jobs) books = run jobs (commit p books).1

-- The number that a counter gives out next.
unfoldable pub next_of : Text → Counter → ℕ
next_of year [] = 1
next_of year ((y, n) ∷ counter) = if text_eq y year then n else next_of year counter

pub taken_is_next :
    (year : Text) (counter : Counter) → (next_sequence year counter).0 ≡ next_of year counter
unfolding next_sequence next_of
taken_is_next year [] = refl
taken_is_next year ((y, n) ∷ counter) = ground (arith, taken_is_next year counter)

pub next_of-same :
    (year : Text) (counter : Counter)
    → next_of year (next_sequence year counter).1 ≡ suc (next_of year counter)
unfolding next_sequence next_of
next_of-same year [] = ground (arith, text_eq_refl year)
next_of-same year ((y, n) ∷ counter) = ground (arith, next_of-same year counter)

pub next_of-other :
    (year other : Text) (counter : Counter)
    → text_eq year other ≡ false
    → next_of other (next_sequence year counter).1 ≡ next_of other counter
unfolding next_sequence next_of
next_of-other year other [] h = ground arith
next_of-other year other ((y, n) ∷ counter) h =
    ground (arith, next_of-other year other counter h, text_eq_sound y year)

-- n, n - 1, …, 1.
unfoldable pub countdown : ℕ → List ℕ
countdown zero = []
countdown (suc n) = suc n ∷ countdown n

module _ {A : Type 0} (year_of : A → Text) (sequence_of : A → ℕ) where
  -- The numbers that documents of a year carry, the newest first.
  unfoldable pub numbers : Text → List A → List ℕ
  numbers year [] = []
  numbers year (a ∷ rows) =
      let rest = numbers year rows in
      if text_eq (year_of a) year then sequence_of a ∷ rest else rest

  -- The documents of each year are numbered from 1 to the last one given out, without a gap and
  -- without a repetition, and the counter stands one above it.
  unfoldable pub AreNumbered : List A → Counter → Type 0
  AreNumbered rows counter =
      (year : Text) → (n : ℕ) × (next_of year counter ≡ suc n) × (numbers year rows ≡ countdown n)

  pub AreNumbered-next :
      (a : A) (rows : List A) (counter : Counter)
      → sequence_of a ≡ (next_sequence (year_of a) counter).0
      → AreNumbered rows counter
      → AreNumbered (a ∷ rows) (next_sequence (year_of a) counter).1
  unfolding AreNumbered numbers countdown
  AreNumbered-next a rows counter e before year = elim (Bool-cases (text_eq (year_of a) year)) [
    | inl same ↦
        let (n, next, listed) = before year in
        let here : year_of a ≡ year = text_eq_sound (year_of a) year same in
        (
          suc n,
          ap (λ y. next_of year (next_sequence y counter).1) here
              ∙ next_of-same year counter
              ∙ ap suc next,
          rw same (
              ap (λ m. m ∷ numbers year rows)
                (e ∙ ap (λ y. (next_sequence y counter).0) here ∙ taken_is_next year counter ∙ next)
              ∙ ap (◌∷◌ (suc n)) listed),
        )
    | inr other ↦
        let (n, next, listed) = before year in
        (n, next_of-other (year_of a) year counter other ∙ next, rw other listed)
  ]

-- Both books of documents are numbered.
pub record IsNumbered (books : Books) : Type 0 where
  pub invoices :
      AreNumbered
        (λ (i : Invoice). i.financial_year)
        (λ i. i.sequence)
        books.invoices
        books.invoice_counter
  pub receipts :
      AreNumbered
        (λ (r : Receipt). r.financial_year)
        (λ r. r.sequence)
        books.receipts
        books.receipt_counter

no_books-IsNumbered : IsNumbered no_books
unfolding AreNumbered numbers countdown next_of
no_books-IsNumbered = record {
  invoices = λ year. (0, refl, refl);
  receipts = λ year. (0, refl, refl);
}

raise-IsNumbered : (p : Prepared) (books : Books) → IsNumbered books → IsNumbered (raise p books).1
unfolding raise to_invoice to_receipt
raise-IsNumbered p books h =
    let (n, counter) = next_sequence p.year books.invoice_counter in
    let (m, receipts) = next_sequence p.year books.receipt_counter in
    let invoice = to_invoice p books.next_id n in
    record {
      invoices =
          AreNumbered-next (λ (i : Invoice). i.financial_year) (λ i. i.sequence) invoice
            books.invoices books.invoice_counter refl h.invoices;
      receipts =
          AreNumbered-next (λ (r : Receipt). r.financial_year) (λ r. r.sequence)
            (to_receipt p.series p.year books.next_receipt_id invoice m) books.receipts
            books.receipt_counter refl h.receipts;
    }

raise_or-IsNumbered :
    (found : Option Invoice) (p : Prepared) (books : Books)
    → IsNumbered books
    → IsNumbered (raise_or found p books).1
raise_or-IsNumbered none p books h = raise-IsNumbered p books h
raise_or-IsNumbered (some invoice) p books h = h

pub run-IsNumbered :
    (jobs : List Prepared) (books : Books) → IsNumbered books → IsNumbered (run jobs books)
unfolding run commit
run-IsNumbered [] books h = h
run-IsNumbered (p ∷ jobs) books h =
    run-IsNumbered jobs (commit p books).1
      (raise_or-IsNumbered (by_payment p.request.razorpay_payment_id books) p books h)

-- Whatever debits are invoiced, again or for the first time, and in whatever order their transactions
-- commit: the invoices of each financial year are numbered from 1 to the last one given out, in the
-- order they were written, without a gap or a repetition, the counter stands at the next number, and so
-- it is for the receipts.
pub series-IsNumbered : (jobs : List Prepared) → IsNumbered (run jobs no_books)
series-IsNumbered jobs = run-IsNumbered jobs no_books no_books-IsNumbered
