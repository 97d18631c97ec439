-- ===== src/Billing/Invoices/Once.antt =====
-- src/billing/invoice.service.ts: one invoice per debit.
use drasken_labs_communicati.Prelude.{
  ◌≡◌, refl, sym, ap, ◌∙◌, Text, text_eq, text_eq_refl, text_eq_sound, false, inl, inr, List, [],
  ◌∷◌, Option, none, some, Bool-cases,
}
use drasken_labs_communicati.Prelude.Table.{find_first}
use drasken_labs_communicati.Billing.Invoices.Store.{
  by_payment, raise, raise_or, commit, to_invoice,
}
use drasken_labs_communicati.Billing.Invoices.Rows.{Invoice, Books, Prepared}
use drasken_labs_communicati.Billing.Invoices.Numbering.{run}

-- The payment that a transaction is about.
abbrev pub paid_by : Prepared → Text
paid_by p = p.request.razorpay_payment_id

-- The invoice that is raised is the one its payment has,
raise-finds :
    (p : Prepared) (books : Books)
    → by_payment (paid_by p) (raise p books).1 ≡ some (raise p books).0
unfolding by_payment raise to_invoice find_first
raise-finds p books = rw (text_eq_refl (paid_by p)) refl

-- and the other payments keep theirs.
raise-keeps :
    (id : Text) (p : Prepared) (books : Books)
    → text_eq (paid_by p) id ≡ false
    → by_payment id (raise p books).1 ≡ by_payment id books
unfolding by_payment raise to_invoice find_first
raise-keeps id p books h = rw h refl

raise_or-finds :
    (found : Option Invoice) (p : Prepared) (books : Books)
    → found ≡ by_payment (paid_by p) books
    → by_payment (paid_by p) (raise_or found p books).1 ≡ some (raise_or found p books).0
raise_or-finds none p books h = raise-finds p books
raise_or-finds (some i) p books h = sym h

raise_or-keeps :
    (id : Text) (i : Invoice) (found : Option Invoice) (p : Prepared) (books : Books)
    → found ≡ by_payment (paid_by p) books
    → by_payment id books ≡ some i
    → by_payment id (raise_or found p books).1 ≡ some i
raise_or-keeps id i (some j) p books e h = h
raise_or-keeps id i none p books e h = elim (Bool-cases (text_eq (paid_by p) id)) [
  | inl same ↦ let here = text_eq_sound (paid_by p) id same in cc
  | inr other ↦ raise-keeps id p books other ∙ h
]

run-keeps :
    (id : Text) (i : Invoice) (jobs : List Prepared) (books : Books)
    → by_payment id books ≡ some i
    → by_payment id (run jobs books) ≡ some i
unfolding run commit
run-keeps id i [] books h = h
run-keeps id i (p ∷ jobs) books h =
    run-keeps id i jobs (commit p books).1
      (raise_or-keeps id i (by_payment (paid_by p) books) p books refl h)

commit_found :
    (i : Invoice) (q : Prepared) (books : Books)
    → by_payment (paid_by q) books ≡ some i
    → commit q books ≡ (i, books)
unfolding commit
commit_found i q books h = ap (λ o. raise_or o q books) h

-- A transaction for a debit that has been invoiced, with whatever else it brings and after whatever
-- other transactions, returns the invoice of the first one and writes nothing: no row, no number.
pub commit-again :
    (p q : Prepared) (jobs : List Prepared) (books : Books)
    → paid_by q ≡ paid_by p
    → commit q (run jobs (commit p books).1) ≡ ((commit p books).0, run jobs (commit p books).1)
unfolding commit
commit-again p q jobs books same =
    let (i, after) = commit p books in
    commit_found i q (run jobs after) (
      ap (λ id. by_payment id (run jobs after)) same
      ∙ run-keeps (paid_by p) i jobs after
          (raise_or-finds (by_payment (paid_by p) books) p books refl))
