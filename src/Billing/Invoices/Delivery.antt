-- ===== src/Billing/Invoices/Delivery.antt =====
-- src/billing/invoice.service.ts and receipt.service.ts: `deliver` and `deliverPending`. The mail is a
-- parameter: whether it took the message, or `none` where sending throws.
use drasken_labs_communicati.Prelude.Table.{find_first, update_row}
use drasken_labs_communicati.Prelude.{
  ℕ, ◌+◌, ◌==◌, Text, Bool, true, false, List, [], ◌∷◌, Option, none, some, truthy, leb, take,
  if◌then◌else◌,
}
use drasken_labs_communicati.Billing.Invoices.Rows.{Invoice, Receipt, Books}
use drasken_labs_communicati.Billing.Invoices.Views.{matching}

-- `forInvoice`.
abbrev pub is_for : ℕ → Receipt → Bool
is_for id r = r.invoice_id == id

unfoldable pub for_invoice : ℕ → Books → Option Receipt
for_invoice id books = find_first (is_for id) books.receipts

abbrev pub stamp_invoice : ℕ → Option Text → Invoice → Invoice
stamp_invoice now to i = record i { emailed_at = some now; emailed_to = to }

abbrev pub stamp_receipt : ℕ → Option Text → Receipt → Receipt
stamp_receipt now to r = record r { emailed_at = some now; emailed_to = to }

abbrev pub invoice_key : Invoice → ℕ
invoice_key i = i.id

abbrev pub receipt_key : Receipt → ℕ
receipt_key r = r.id

abbrev pub stamp_receipts : ℕ → Option Text → Option Receipt → List Receipt → List Receipt
stamp_receipts now to none receipts = receipts
stamp_receipts now to (some r) receipts =
    update_row receipt_key r.id (stamp_receipt now to) receipts

-- The two documents of a message that was taken.
unfoldable pub stamp : ℕ → Invoice → Option Receipt → Books → Books
stamp now i receipt books = record books {
  invoices = update_row invoice_key i.id (stamp_invoice now i.billed_to_email) books.invoices;
  receipts = stamp_receipts now i.billed_to_email receipt books.receipts;
}

abbrev pub is_unsent : Invoice → Bool
is_unsent i = elim i.emailed_at as (λ _. Bool) [
  | none ↦ elim i.billed_to_email as (λ _. Bool) [ none ↦ false | some to ↦ true ]
  | some at ↦ false
]

-- `orderBy: { issuedAt: 'asc' }`; rows of one instant stay as the table has them.
unfoldable pub insert_oldest : Invoice → List Invoice → List Invoice
insert_oldest i [] = i ∷ []
insert_oldest i (j ∷ rows) =
    if leb i.issued_at j.issued_at then i ∷ j ∷ rows else j ∷ insert_oldest i rows

unfoldable pub oldest_first : List Invoice → List Invoice
oldest_first [] = []
oldest_first (i ∷ rows) = insert_oldest i (oldest_first rows)

unfoldable pub pending : ℕ → Books → List Invoice
pending limit books = take limit (oldest_first (matching is_unsent books.invoices))

module _ (invoice_issued : Invoice → Option Receipt → Option Bool) (now : ℕ) where
  abbrev pub delivered : Option Bool → Invoice → Option Receipt → Books → Option Bool × Books
  delivered none i receipt books = (none, books)
  delivered (some false) i receipt books = (some false, books)
  delivered (some true) i receipt books = (some true, stamp now i receipt books)

  -- `deliver`: whether it went, `none` where it throws, and the books.
  unfoldable pub deliver : Invoice → Books → Option Bool × Books
  deliver i books =
      let receipt = for_invoice i.id books in
      if truthy i.billed_to_email
      then delivered (invoice_issued i receipt) i receipt books
      else (some false, books)

  abbrev pub one_if : Option Bool → ℕ
  one_if (some true) = 1
  one_if (some false) = 0
  one_if none = 0

  unfoldable pub deliver_each : List Invoice → Books → ℕ × Books
  deliver_each [] books = (0, books)
  deliver_each (i ∷ rows) books =
      let (sent, after) = deliver i books in
      let (count, last) = deliver_each rows after in (one_if sent + count, last)

  -- `deliverPending`: how many went, and the books.
  unfoldable pub deliver_pending : ℕ → Books → ℕ × Books
  deliver_pending limit books = deliver_each (pending limit books) books
