-- ===== src/Billing/Invoices/Store.antt =====
-- src/billing/invoice.service.ts and receipt.service.ts: the tables, the counters and the
-- transaction that raises an invoice with its receipt. A duplicate payment id, which the table's
-- unique index refuses, is read back by that id.
use drasken_labs_communicati.Prelude.Words.{or_else, or_value, join, present, or_null}
use drasken_labs_communicati.Prelude.Pattern.{at_end, repeat}
use drasken_labs_communicati.Prelude.Table.{find_first}
use drasken_labs_communicati.Prelude.Int.{pos}
use drasken_labs_communicati.Prelude.{
  ℕ, zero, suc, Text, codes, Bool, List, [], ◌∷◌, Option, none, some, text_eq, is_alnum,
  if◌then◌else◌,
}
use drasken_labs_communicati.Billing.Gst.{split_tax, place_of_supply_label, state_code_of_gstin}
use drasken_labs_communicati.Billing.InvoiceNumber.{financial_year, invoice_number, receipt_number}
use drasken_labs_communicati.OrganisationSettings.{Settings}
use drasken_labs_communicati.Billing.Invoices.Draft.{InvoiceRequest, Client, drafts, apportion}
use drasken_labs_communicati.Billing.Invoices.Wording.{summarise, divide, tax_identity}
use drasken_labs_communicati.Billing.Invoices.Rows.{
  Config, User, Invoice, Receipt, Counter, Books, Prepared,
}

-- `/^[A-Z0-9]{2,8}$/`.
unfoldable pub is_series : Text → Bool
is_series = repeat is_alnum 2 6 at_end

-- `series`.
unfoldable pub series : Config → Text
series config =
    let value = config.to_upper_case (or_value config.invoice_series (codes "WAC")) in
    if is_series value then value else codes "WAC"

-- `nextSequence`: insert 2, or add 1 to what is there; the number taken is one less.
unfoldable pub next_sequence : Text → Counter → ℕ × Counter
next_sequence year [] = (1, (year, 2) ∷ [])
next_sequence year ((y, n) ∷ counter) =
    let (taken, rest) = next_sequence year counter in
    if text_eq y year then (n, (y, suc n) ∷ counter) else (taken, (y, n) ∷ rest)

abbrev pub has_payment : Text → Invoice → Bool
has_payment id i = text_eq i.razorpay_payment_id id

unfoldable pub by_payment : Text → Books → Option Invoice
by_payment id books = find_first (has_payment id) books.invoices

abbrev pub when_taxed {ℓ} : {A : Type ℓ} → ℕ → A → Option A
when_taxed zero a = none
when_taxed (suc rate) a = some a

abbrev pub user_name : Option User → Option Text
user_name none = none
user_name (some u) = or_null (join (codes " ") (present (u.first_name ∷ u.last_name ∷ [])))

abbrev pub user_email : Option User → Option Text
user_email none = none
user_email (some u) = u.email

-- The row that `tx.invoice.create` writes.
unfoldable pub to_invoice : Prepared → ℕ → ℕ → Invoice
to_invoice p id sequence =
    let r = p.request in
    record {
      id = id;
      number = invoice_number p.series p.year sequence;
      financial_year = p.year;
      sequence = sequence;
      razorpay_payment_id = r.razorpay_payment_id;
      razorpay_invoice_id = r.razorpay_invoice_id;
      payment_id = r.payment_id;
      sso_org_id = r.sso_org_id;
      billing_group_id = r.billing_group_id;
      billed_to_name = p.billed_to_name;
      billed_to_email = p.billed_to_email;
      organisation_name = p.organisation_name;
      summary = p.summary;
      payment_method = or_else r.method_detail r.method;
      period_start = r.period_start;
      period_end = r.period_end;
      subtotal = pos p.division.subtotal;
      tax_amount = p.division.tax_amount;
      tax_rate_bps = p.division.tax_rate_bps;
      tax_label = p.tax_label;
      cgst_amount = p.split.cgst_amount;
      sgst_amount = p.split.sgst_amount;
      igst_amount = p.split.igst_amount;
      billed_to_gstin = p.buyer.gstin;
      billed_to_address = p.buyer.address;
      place_of_supply = place_of_supply_label p.buyer.state_code;
      place_of_supply_code = p.buyer.state_code;
      sac_code = p.sac_code;
      total = pos r.amount;
      currency = r.currency;
      issued_at = p.issued_at;
      paid_at = r.paid_at;
      emailed_at = none;
      emailed_to = none;
      lines = p.lines;
    }

-- The row that `recordIn` writes, in a year of its own.
unfoldable pub to_receipt : Text → Text → ℕ → Invoice → ℕ → Receipt
to_receipt series year id i sequence = record {
  id = id;
  number = receipt_number series year sequence;
  financial_year = year;
  sequence = sequence;
  invoice_id = i.id;
  razorpay_payment_id = i.razorpay_payment_id;
  sso_org_id = i.sso_org_id;
  billed_to_name = i.billed_to_name;
  billed_to_email = i.billed_to_email;
  organisation_name = i.organisation_name;
  summary = i.summary;
  amount = i.total;
  currency = i.currency;
  payment_method = i.payment_method;
  payment_reference = i.razorpay_payment_id;
  issued_at = i.issued_at;
  received_at = i.paid_at;
  emailed_at = none;
  emailed_to = none;
}

-- The transaction, of a payment that has no invoice. The receipt's year is that of the same instant
-- in the same zone.
unfoldable pub raise : Prepared → Books → Invoice × Books
raise p books =
    let (n, counter) = next_sequence p.year books.invoice_counter in
    let invoice = to_invoice p books.next_id n in
    let (m, receipt_counter) = next_sequence p.year books.receipt_counter in
    (
      invoice,
      record books {
        invoices = invoice ∷ books.invoices;
        receipts = to_receipt p.series p.year books.next_receipt_id invoice m ∷ books.receipts;
        invoice_counter = counter;
        receipt_counter = receipt_counter;
        next_id = suc books.next_id;
        next_receipt_id = suc books.next_receipt_id;
      },
    )

abbrev pub raise_or : Option Invoice → Prepared → Books → Invoice × Books
raise_or (some invoice) p books = (invoice, books)
raise_or none p books = raise p books

-- The transaction with the unique index.
unfoldable pub commit : Prepared → Books → Invoice × Books
commit p books = raise_or (by_payment p.request.razorpay_payment_id books) p books

module _ (config : Config) (user_of : ℕ → Option User) (directory_name : Text → Option Text)
    (clients_of_group : ℕ → List Client) (settings : List Settings) where
  -- What `record` gathers at an instant.
  unfoldable pub prepare : InvoiceRequest → ℕ → Prepared
  prepare r now =
      let issued = or_value r.paid_at now in
      let buyer = tax_identity r.sso_org_id settings in
      let division = divide config.tax_rate_bps r.amount in
      let drafted = drafts directory_name settings r clients_of_group in
      let user = user_of r.user_id in
      record {
        series = series config;
        year = financial_year config.format_to_parts issued config.time_zone;
        issued_at = issued;
        billed_to_name = user_name user;
        billed_to_email = user_email user;
        organisation_name = directory_name r.sso_org_id;
        buyer = buyer;
        division = division;
        split =
            split_tax (pos division.tax_amount) (state_code_of_gstin config.seller_gstin)
              buyer.state_code;
        tax_label = when_taxed division.tax_rate_bps (or_value config.tax_label (codes "GST"));
        sac_code = when_taxed division.tax_rate_bps (or_value config.sac_code (codes "998314"));
        summary = summarise drafted;
        lines = apportion drafted division.subtotal;
        request = r;
      }

  abbrev pub record_or : Option Invoice → InvoiceRequest → ℕ → Books → Invoice × Books
  record_or (some invoice) r now books = (invoice, books)
  record_or none r now books = commit (prepare r now) books

  -- `record`, with nothing between its look-up and its transaction.
  unfoldable pub record_invoice : InvoiceRequest → ℕ → Books → Invoice × Books
  record_invoice r now books = record_or (by_payment r.razorpay_payment_id books) r now books
