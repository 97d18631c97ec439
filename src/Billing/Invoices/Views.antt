-- ===== src/Billing/Invoices/Views.antt =====
-- src/billing/invoice.service.ts and receipt.service.ts: who may read a document, and the extract
-- that a client is shown of an invoice that its agency paid.
use drasken_labs_communicati.Prelude.Int.{ℤ, pos, ◌+ℤ◌}
use drasken_labs_communicati.Prelude.Table.{find_first}
use drasken_labs_communicati.Prelude.{
  ℕ, Text, Bool, true, false, List, [], ◌∷◌, Option, none, some, any, map, text_eq, truthy, take,
  ◌||◌, ◌&&◌, ltb, ◌==◌, if◌then◌else◌,
}
use drasken_labs_communicati.Billing.InvoiceNumber.{is_invoice_number, is_receipt_number}
use drasken_labs_communicati.Billing.Invoices.Draft.{InvoiceLine}
use drasken_labs_communicati.Billing.Invoices.Wording.{holds}
use drasken_labs_communicati.Billing.Invoices.Rows.{Invoice, Receipt, Books}

-- `line.ssoOrgId === ssoOrgId`.
abbrev pub names_org : Option Text → Text → Bool
names_org none id = false
names_org (some org) id = text_eq org id

abbrev pub is_own_line : Text → InvoiceLine → Bool
is_own_line id line = names_org line.sso_org_id id

-- `filter`.
unfoldable pub own_lines : Text → List InvoiceLine → List InvoiceLine
own_lines id [] = []
own_lines id (line ∷ lines) =
    let rest = own_lines id lines in if is_own_line id line then line ∷ rest else rest

-- `reduce` from 0, of integers, whose order of addition does not show.
unfoldable pub sum_amounts : List InvoiceLine → ℤ
sum_amounts [] = pos 0
sum_amounts (line ∷ lines) = line.amount +ℤ sum_amounts lines

-- `orderBy: [{ issuedAt: 'desc' }, { id: 'desc' }]`.
abbrev pub is_before : Invoice → Invoice → Bool
is_before a b = if a.issued_at == b.issued_at then ltb b.id a.id else ltb b.issued_at a.issued_at

unfoldable pub insert : Invoice → List Invoice → List Invoice
insert a [] = a ∷ []
insert a (b ∷ bs) = if is_before a b then a ∷ b ∷ bs else b ∷ insert a bs

unfoldable pub newest_first : List Invoice → List Invoice
newest_first [] = []
newest_first (a ∷ rest) = insert a (newest_first rest)

-- `findMany` with a condition: the rows that meet it, in that order, up to a number.
unfoldable pub matching : (Invoice → Bool) → List Invoice → List Invoice
matching p [] = []
matching p (a ∷ rows) = let rest = matching p rows in if p a then a ∷ rest else rest

abbrev pub find_many : (Invoice → Bool) → ℕ → List Invoice → List Invoice
find_many p n invoices = take n (newest_first (matching p invoices))

-- `listForOrg`.
abbrev pub list_for_org : Text → ℕ → Books → List Invoice
list_for_org id n books = find_many (λ i. text_eq i.sso_org_id id) n books.invoices

-- `listForAgency`.
abbrev pub list_for_agency : Text → List Text → ℕ → Books → List Invoice
list_for_agency agency clients n books =
    find_many (λ i. holds i.sso_org_id (agency ∷ clients)) n books.invoices

-- `listCoveringOrg`.
abbrev pub covers : Text → Invoice → Bool
covers id i = text_eq i.sso_org_id id || any (is_own_line id) i.lines

abbrev pub list_covering_org : Text → ℕ → Books → List Invoice
list_covering_org id n books = find_many (covers id) n books.invoices

-- `find`, by the number, which is unique.
abbrev pub has_number : Text → Invoice → Bool
has_number number i = text_eq i.number number

unfoldable pub find : Text → Books → Option Invoice
find number books = find_first (has_number number) books.invoices

abbrev pub if_allowed {ℓ} : {A : Type ℓ} → (A → Bool) → Option A → Option A
if_allowed p none = none
if_allowed p (some a) = if p a then some a else none

-- `findAddressedTo`.
unfoldable pub find_addressed_to : List Text → Text → Books → Option Invoice
find_addressed_to allowed number books =
    if is_invoice_number number
    then if_allowed (λ i. holds i.sso_org_id allowed) (find number books)
    else none

-- A line whose organisation is set and allowed.
abbrev pub is_allowed_line : List Text → InvoiceLine → Bool
is_allowed_line allowed line =
    truthy line.sso_org_id
    && elim line.sso_org_id as (λ _. Bool) [ none ↦ false | some org ↦ holds org allowed ]

-- `findForOrgs`.
abbrev pub is_permitted : List Text → Invoice → Bool
is_permitted allowed i = holds i.sso_org_id allowed || any (is_allowed_line allowed) i.lines

unfoldable pub find_for_orgs : List Text → Text → Books → Option Invoice
find_for_orgs allowed number books = if_allowed (is_permitted allowed) (find number books)

-- `findAddressedTo` of receipts.
abbrev pub receipt_has_number : Text → Receipt → Bool
receipt_has_number number r = text_eq r.number number

unfoldable pub find_receipt : Text → Books → Option Receipt
find_receipt number books =
    if is_receipt_number number then find_first (receipt_has_number number) books.receipts else none

unfoldable pub find_receipt_addressed_to : List Text → Text → Books → Option Receipt
find_receipt_addressed_to allowed number books =
    if_allowed (λ r. holds r.sso_org_id allowed) (find_receipt number books)

-- `InvoiceDto`: the invoice as it is shown, and what is said of it.
pub record InvoiceDto : Type 0 where
  pub number : Text
  pub financial_year : Text
  pub issued_at : ℕ
  pub paid_at : Option ℕ
  pub sso_org_id : Text
  pub organisation_name : Option Text
  pub summary : Option Text
  pub lines : List InvoiceLine
  pub period_start : Option ℕ
  pub period_end : Option ℕ
  pub subtotal : ℤ
  pub tax_amount : ℕ
  pub tax_rate_bps : ℕ
  pub tax_label : Option Text
  pub cgst_amount : ℕ
  pub sgst_amount : ℕ
  pub igst_amount : ℕ
  pub place_of_supply : Option Text
  pub billed_to_gstin : Option Text
  pub sac_code : Option Text
  pub total : ℤ
  pub currency : Text
  pub payment_method : Option Text
  pub emailed_at : Option ℕ
  pub emailed_to : Option Text
  pub razorpay_payment_id : Text
  pub extract : Bool
  pub downloadable : Bool

-- `toDto`; a line is shown but for its position.
unfoldable pub to_dto : Invoice → InvoiceDto
to_dto i = record {
  number = i.number;
  financial_year = i.financial_year;
  issued_at = i.issued_at;
  paid_at = i.paid_at;
  sso_org_id = i.sso_org_id;
  organisation_name = i.organisation_name;
  summary = i.summary;
  lines = i.lines;
  period_start = i.period_start;
  period_end = i.period_end;
  subtotal = i.subtotal;
  tax_amount = i.tax_amount;
  tax_rate_bps = i.tax_rate_bps;
  tax_label = i.tax_label;
  cgst_amount = i.cgst_amount;
  sgst_amount = i.sgst_amount;
  igst_amount = i.igst_amount;
  place_of_supply = i.place_of_supply;
  billed_to_gstin = i.billed_to_gstin;
  sac_code = i.sac_code;
  total = i.total;
  currency = i.currency;
  payment_method = i.payment_method;
  emailed_at = i.emailed_at;
  emailed_to = i.emailed_to;
  razorpay_payment_id = i.razorpay_payment_id;
  extract = false;
  downloadable = true;
}

abbrev pub extract_of : Text → Invoice → InvoiceDto
extract_of id i =
    let own = own_lines id i.lines in
    let total = sum_amounts own in
    record (to_dto i) {
      lines = own;
      subtotal = total;
      tax_amount = 0;
      tax_rate_bps = 0;
      tax_label = none;
      cgst_amount = 0;
      sgst_amount = 0;
      igst_amount = 0;
      place_of_supply = none;
      billed_to_gstin = none;
      total = total;
      extract = true;
      downloadable = false;
      emailed_to = none;
    }

-- `toDtoFor`.
unfoldable pub to_dto_for : Invoice → Text → InvoiceDto
to_dto_for i id = if text_eq i.sso_org_id id then to_dto i else extract_of id i

-- src/billing/billing.controller.ts: `invoiceList`, and `invoice` with `readable`, where `none` is the
-- answer 404.
unfoldable pub invoice_list : Text → Books → List InvoiceDto
invoice_list org books = map (λ i. to_dto_for i org) (list_covering_org org 60 books)

abbrev pub shown_to : Text → Option Invoice → Option InvoiceDto
shown_to org none = none
shown_to org (some i) = some (to_dto_for i org)

unfoldable pub readable : Text → Text → Books → Option Invoice
readable org number books =
    if is_invoice_number number then find_for_orgs (org ∷ []) number books else none

unfoldable pub invoice : Text → Text → Books → Option InvoiceDto
invoice org number books = shown_to org (readable org number books)
