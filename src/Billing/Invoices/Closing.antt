-- ===== src/Billing/Invoices/Closing.antt =====
-- src/billing/invoice.service.ts: the arithmetic on an invoice closes on what the bank moved.
use native.Mathlib.Nat.{div-lt_iff_lt-mul}
use drasken_labs_communicati.Prelude.Int.{pos, ◌+ℤ◌}
use drasken_labs_communicati.Prelude.{
  ℕ, zero, suc, ◌+◌, ◌*◌, ◌≤◌, ◌<◌, ◌≡◌, refl, sym, ap, subst, ◌∙◌, Text, List, [], ◌∷◌, Option,
  none, some, All, arith,
}
use drasken_labs_communicati.Prelude.Table.{find_first-All}
use drasken_labs_communicati.OrganisationSettings.{Settings}
use drasken_labs_communicati.Billing.Gst.Tax.{split_tax-IsDivision}
use drasken_labs_communicati.Billing.Invoices.Draft.{
  InvoiceRequest, Client, DraftLine, drafts, drafts_for, group_drafts, apportion, round_div,
}
use drasken_labs_communicati.Billing.Invoices.Wording.{divide}
use drasken_labs_communicati.Billing.Invoices.Store.{
  to_invoice, prepare, raise, raise_or, commit, record_or, record_invoice, by_payment, has_payment,
}
use drasken_labs_communicati.Billing.Invoices.Rows.{Config, User, Invoice, Books}
use drasken_labs_communicati.Billing.Invoices.Views.{sum_amounts}
use drasken_labs_communicati.Billing.Invoices.Lines.{apportion-IsExact}

-- What is on the page adds up: the lines to the subtotal, the subtotal and the tax to the total, the
-- heads to the tax.
pub record Closes (i : Invoice) : Type 0 where
  pub lines : sum_amounts i.lines ≡ i.subtotal
  pub taxed : i.subtotal +ℤ pos i.tax_amount ≡ i.total
  pub heads : i.cgst_amount + i.sgst_amount + i.igst_amount ≡ i.tax_amount

round_div_le : (a b t : ℕ) → 0 < b → a ≤ t * b → round_div a b ≤ t
unfolding round_div
round_div_le a b t h k =
    let below =
      (div-lt_iff_lt-mul {k = 2 * b} {x = 2 * a + b} {y = suc t} (omega arith)).1 (omega arith) in
    omega arith

divide_closes :
    (rate total : ℕ)
    → pos (divide rate total).subtotal +ℤ pos (divide rate total).tax_amount ≡ pos total
unfolding divide ◌+ℤ◌
divide_closes zero total = ground arith
divide_closes (suc rate) total =
    let below = round_div_le (total * 10000) (10000 + suc rate) total (omega arith) (omega arith) in
    ground arith

module _ (directory_name : Text → Option Text) (settings : List Settings) where
  group_drafts_cons :
      (r : InvoiceRequest) (clients : List Client)
      → (d : DraftLine) × (rest : List DraftLine) × (group_drafts directory_name settings r clients
          ≡ d ∷ rest)
  unfolding group_drafts
  group_drafts_cons r [] = (_, [], refl)
  group_drafts_cons r (c ∷ clients) = (_, _, refl)

  -- Every debit is for something.
  drafts_for_cons :
      (r : InvoiceRequest) (clients_of_group : ℕ → List Client) (group : Option ℕ)
      → (d : DraftLine) × (rest : List DraftLine) × (drafts_for directory_name settings r
            clients_of_group group
          ≡ d ∷ rest)
  unfolding drafts_for
  drafts_for_cons r clients_of_group none = (_, [], refl)
  drafts_for_cons r clients_of_group (some group) = group_drafts_cons r (clients_of_group group)

module _ (config : Config) (user_of : ℕ → Option User) (directory_name : Text → Option Text)
    (clients_of_group : ℕ → List Client) (settings : List Settings) where
  prepare-Closes :
      (r : InvoiceRequest) (now id sequence : ℕ)
      → Closes (
          to_invoice
            (prepare config user_of directory_name clients_of_group settings r now)
            id
            sequence)
  unfolding to_invoice prepare drafts
  prepare-Closes r now id sequence =
      let (d, rest, e) =
        drafts_for_cons directory_name settings r clients_of_group r.billing_group_id in
      let division = divide config.tax_rate_bps r.amount in
      record {
        lines =
            ap (λ drafted. sum_amounts (apportion drafted division.subtotal)) e
            ∙ (apportion-IsExact d rest division.subtotal).0;
        taxed = divide_closes config.tax_rate_bps r.amount;
        heads = (split_tax-IsDivision (pos division.tax_amount) _ _).total;
      }

  raise-Closes :
      (r : InvoiceRequest) (now : ℕ) (books : Books)
      → All Closes books.invoices
      → Closes
          (raise (prepare config user_of directory_name clients_of_group settings r now) books).0
        × All Closes
            (raise
              (prepare config user_of directory_name clients_of_group settings r now)
              books).1.invoices
  unfolding raise
  raise-Closes r now books before =
      let closed = prepare-Closes r now books.next_id _ in (closed, (closed, before))

  -- A call returns an invoice that closes and leaves invoices that close.
  abbrev LeavesClosed : Invoice × Books → Type 0
  LeavesClosed result = Closes result.0 × All Closes result.1.invoices

  record_or-Closes :
      (found : Option Invoice) (r : InvoiceRequest) (now : ℕ) (books : Books)
      → found ≡ by_payment r.razorpay_payment_id books
      → All Closes books.invoices
      → LeavesClosed
          (record_or config user_of directory_name clients_of_group settings found r now books)
  unfolding by_payment commit prepare
  record_or-Closes (some invoice) r now books e before = (
    find_first-All Closes (has_payment r.razorpay_payment_id) books.invoices invoice before (sym e),
    before,
  )
  record_or-Closes none r now books e before =
      let prepared = prepare config user_of directory_name clients_of_group settings r now in
      subst (λ o. LeavesClosed (raise_or o prepared books)) e (raise-Closes r now books before)

  -- Whatever the tax rate, the registrations, the clients and their prices: if the arithmetic of every invoice on the books
  -- closes, then so does that of the invoice that a call returns, raised or found, and of every invoice
  -- after it: the lines add up to the subtotal, the subtotal and the tax to what the bank moved, and
  -- the heads to the tax.
  pub record_invoice-Closes :
      (r : InvoiceRequest) (now : ℕ) (books : Books)
      → All Closes books.invoices
      → LeavesClosed
          (record_invoice config user_of directory_name clients_of_group settings r now books)
  unfolding record_invoice
  record_invoice-Closes r now books before =
      record_or-Closes (by_payment r.razorpay_payment_id books) r now books refl before
