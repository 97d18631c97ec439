-- ===== src/Billing/Invoices/Reading.antt =====
-- src/billing/invoice.service.ts and billing.controller.ts: what an organisation may read.
use drasken_labs_communicati.Prelude.{
  ◌↔◌, if◌then◌else◌, zero, suc, map, subst, sym, take, ℕ, ◌≡◌, ◌≢◌, refl, ap, ◌∙◌, Text, text_eq,
  text_eq_refl, text_eq_sound, Bool, true, false, inl, inr, List, [], ◌∷◌, Option, none, some, All,
  any, Bool-cases, Option-cases, arith,
}
use drasken_labs_communicati.Prelude.OneOf.{IsOneOf}
use drasken_labs_communicati.Billing.Invoices.Draft.{InvoiceLine}
use drasken_labs_communicati.Billing.Invoices.Wording.{holds}
use drasken_labs_communicati.Billing.Invoices.Rows.{Invoice, Books}
use drasken_labs_communicati.Billing.Invoices.Views.{
  shown_to, find_addressed_to, readable, invoice, list_covering_org, is_before, invoice_list,
  find_many, matching, insert, newest_first, InvoiceDto, is_own_line, covers, find, find_for_orgs,
  if_allowed, is_permitted, is_allowed_line, to_dto_for,
}
use drasken_labs_communicati.Billing.InvoiceNumber.{is_invoice_number}
use drasken_labs_communicati.Prelude.Words.{or_value}
use drasken_labs_communicati.Billing.Invoices.Extract.{IsShown, to_dto_for-IsShown}

-- What holds of the rows that meet a condition holds of those a query returns.
matching-All : (p : Invoice → Bool) (rows : List Invoice) → All (λ i. p i ≡ true) (matching p rows)
unfolding matching
matching-All p [] = tt
matching-All p (i ∷ rows) = elim (Bool-cases (p i)) [
  | inl meets ↦ rw meets (meets, matching-All p rows)
  | inr fails ↦ rw fails (matching-All p rows)
]

module _ (P : Invoice → Type 0) where
  insert-All : (i : Invoice) (rows : List Invoice) → P i → All P rows → All P (insert i rows)
  unfolding insert
  insert-All i [] h hs = (h, tt)
  insert-All i (j ∷ rows) h (k, ks) = elim (Bool-cases (is_before i j)) [
    | inl before ↦ rw before (h, (k, ks))
    | inr after ↦ rw after (k, insert-All i rows h ks)
  ]

  newest_first-All : (rows : List Invoice) → All P rows → All P (newest_first rows)
  unfolding newest_first
  newest_first-All [] h = tt
  newest_first-All (i ∷ rows) (h, hs) =
      insert-All i (newest_first rows) h (newest_first-All rows hs)

  take-All : (n : ℕ) (rows : List Invoice) → All P rows → All P (take n rows)
  take-All zero rows h = tt
  take-All (suc n) [] h = tt
  take-All (suc n) (i ∷ rows) (h, hs) = (h, take-All n rows hs)

find_many-All :
    (p : Invoice → Bool) (n : ℕ) (rows : List Invoice) → All (λ i. p i ≡ true) (find_many p n rows)
find_many-All p n rows =
    take-All (λ i. p i ≡ true) n (newest_first (matching p rows))
      (newest_first-All (λ i. p i ≡ true) (matching p rows) (matching-All p rows))

map-IsShown :
    (id : Text) (rows : List Invoice)
    → All (λ i. covers id i ≡ true) rows
    → All (IsShown id) (map (λ i. to_dto_for i id) rows)
map-IsShown id [] h = tt
map-IsShown id (i ∷ rows) (h, hs) = (to_dto_for-IsShown id i h, map-IsShown id rows hs)

-- Whatever is on the books, each document of an organisation's list is its own, or an extract that has
-- lines, only the organisation's, a total that is their sum, and no PDF.
pub invoice_list-IsShown : (org : Text) (books : Books) → All (IsShown org) (invoice_list org books)
unfolding invoice_list
invoice_list-IsShown org books =
    map-IsShown org (list_covering_org org 60 books) (find_many-All (covers org) 60 books.invoices)

allowed_line_is_own :
    (org : Text) (line : InvoiceLine)
    → is_allowed_line (org ∷ []) line ≡ true
    → is_own_line org line ≡ true
unfolding holds
allowed_line_is_own org line h = elim (Option-cases line.sso_org_id) [
  | inl e ↦ let none_allowed = rw e at h in cc
  | inr ([], e) ↦ let none_allowed = rw e at h in cc
  | inr (c ∷ s, e) ↦ let allowed = rw e at h in rw e (ground arith)
]

any-implied :
    (org : Text) (lines : List InvoiceLine)
    → any (is_allowed_line (org ∷ [])) lines ≡ true
    → any (is_own_line org) lines ≡ true
any-implied org [] h = cc
any-implied org (line ∷ lines) h =
    ground (arith, allowed_line_is_own org line, any-implied org lines)

permitted-covers :
    (org : Text) (i : Invoice) → is_permitted (org ∷ []) i ≡ true → covers org i ≡ true
unfolding holds
permitted-covers org i h = ground (arith, any-implied org i.lines)

some_is_not_none {ℓ} : {A : Type ℓ} (a : A) → some a ≢ none
some_is_not_none a h = cc

true_is_not_false : ◌≢◌ {A = Bool} true false
true_is_not_false h = cc

-- A look-up that is scoped returns what the scope allows.
if_allowed-holds {ℓ} :
    {A : Type ℓ} (p : A → Bool) (o : Option A) (a : A)
    → if_allowed p o ≡ some a
    → (o ≡ some a) × (p a ≡ true)
if_allowed-holds p none a h = cc
if_allowed-holds p (some b) a h = ground arith

readable_lem :
    (org number : Text) (books : Books) (i : Invoice)
    → readable org number books ≡ some i
    → (find number books ≡ some i) × (covers org i ≡ true)
unfolding readable find_for_orgs
readable_lem org number books i h = elim (Bool-cases (is_invoice_number number)) [
  | inr other ↦ absurd (some_is_not_none i (sym h ∙ rw other refl))
  | inl named ↦
      let (found, permitted) =
        if_allowed-holds (is_permitted (org ∷ [])) (find number books) i (rw named at h) in
      (found, permitted-covers org i permitted)
]

shown_to_lem :
    (org : Text) (o : Option Invoice) (dto : InvoiceDto)
    → shown_to org o ≡ some dto
    → (i : Invoice) × (o ≡ some i) × (dto ≡ to_dto_for i org)
shown_to_lem org none dto h = absurd (some_is_not_none dto (sym h))
shown_to_lem org (some i) dto h = (i, refl, sym (ap (λ o. or_value o dto) h))

-- Whatever is on the books: what an organisation is shown of a number is the document under that number,
-- which is its own, or an extract of it that has lines, only the organisation's, a total that is their
-- sum, and no PDF.
pub invoice-IsShown :
    (org number : Text) (books : Books) (dto : InvoiceDto)
    → invoice org number books ≡ some dto
    → (i : Invoice) × (find number books ≡ some i) × (dto ≡ to_dto_for i org) × IsShown org dto
unfolding invoice
invoice-IsShown org number books dto h =
    let (i, read, same) = shown_to_lem org (readable org number books) dto h in
    let (found, covered) = readable_lem org number books i read in
    (i, found, same, subst (IsShown org) (sym same) (to_dto_for-IsShown org i covered))

if_allowed_iff {ℓ} :
    {A : Type ℓ} (p : A → Bool) (o : Option A) (a : A)
    → (if_allowed p o ≡ some a) ↔ ((o ≡ some a) × (p a ≡ true))
if_allowed_iff p o a =
    (if_allowed-holds p o a, λ (e, h). ap (if_allowed p) e ∙ ap (λ b. if b then some a else none) h)

holds_sound : (w : Text) (vs : List Text) → holds w vs ≡ true → IsOneOf w vs
unfolding holds
holds_sound w [] h = cc
holds_sound w (v ∷ vs) h = elim (Bool-cases (text_eq w v)) [
  | inl same ↦ inl (sym (text_eq_sound w v same))
  | inr other ↦ inr (holds_sound w vs (ground arith))
]

IsOneOf-holds : (w : Text) (vs : List Text) → IsOneOf w vs → holds w vs ≡ true
unfolding holds
IsOneOf-holds w [] h = absurd h
IsOneOf-holds w (v ∷ vs) (inl same) =
    ap (λ b. if b then true else holds w vs) (ap (text_eq w) same ∙ text_eq_refl w)
IsOneOf-holds w (v ∷ vs) (inr later) = let rest = IsOneOf-holds w vs later in ground arith

-- The document itself: a reader who may see the documents of some organisations, as an organisation
-- its own, or an agency its own and its clients', reaches an invoice under a number exactly if the
-- number is written as an invoice's, the invoice is on the books under it, and is addressed to one of
-- those organisations.
pub find_addressed_to_iff :
    (allowed : List Text) (number : Text) (books : Books) (i : Invoice)
    → (find_addressed_to allowed number books ≡ some i) ↔ (
        (is_invoice_number number ≡ true)
        × (find number books ≡ some i)
        × IsOneOf i.sso_org_id allowed)
unfolding find_addressed_to
find_addressed_to_iff allowed number books i = elim (Bool-cases (is_invoice_number number)) [
  | inr other ↦ rw other (λ h. absurd (some_is_not_none i (sym h)), λ (h, _, _). cc)
  | inl named ↦ rw named (
      let (to, from) = if_allowed_iff (λ j. holds j.sso_org_id allowed) (find number books) i in
      (
        λ h. let (found, one) = to h in (refl, found, holds_sound i.sso_org_id allowed one),
        λ (_, found, one). from (found, IsOneOf-holds i.sso_org_id allowed one),
      ))
]
