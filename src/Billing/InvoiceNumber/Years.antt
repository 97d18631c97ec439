-- ===== src/Billing/InvoiceNumber/Years.antt =====
-- src/billing/invoice.number.ts: which instants share a book.
use drasken_labs_communicati.Prelude.{
  ℕ, ◌+◌, ◌-◌, ◌*◌, ◌/◌, ◌%◌, ◌≤◌, ◌≡◌, ◌↔◌, refl, sym, ap, ◌∙◌, Text, length, take, Bool, true,
  false, inl, inr, ◌++◌, decimal, ◌==◌, leb, Bool-cases, passes_under, passes_under_at, take-append,
  append-nil, arith, value_from,
}
use drasken_labs_communicati.Billing.InvoiceNumber.{two, year_of, pad_start, zeros}
use drasken_labs_communicati.Billing.InvoiceNumber.Distinct.{value_from-pad_start}

has_two_digits : ℕ → Bool
has_two_digits n = length (pad_start 2 (decimal n)) == 2

all_have_two_digits : passes_under has_two_digits 100 ≡ true
unfolding has_two_digits passes_under pad_start zeros decimal
all_have_two_digits = refl

length-two : (year : ℕ) → length (two year) ≡ 2
unfolding two has_two_digits
length-two year =
    ground
      (arith, passes_under_at has_two_digits 100 (year % 100) (omega arith) all_have_two_digits)

two-injective : (y z : ℕ) (s t : Text) → two y ++ s ≡ two z ++ t → y % 100 ≡ z % 100
unfolding two
two-injective y z s t e =
    let first =
      sym (append-nil (two y))
      ∙ sym (take-append 2 (two y) s 0 (omega (arith, length-two y)))
      ∙ ap (take 2) e
      ∙ take-append 2 (two z) t 0 (omega (arith, length-two z))
      ∙ append-nil (two z) in
    sym (value_from-pad_start 2 (y % 100))
    ∙ ap (value_from 0) first
    ∙ value_from-pad_start 2 (z % 100)

two_of_residue : (y z : ℕ) → y % 100 ≡ z % 100 → two y ≡ two z
unfolding two
two_of_residue y z e = ap (λ n. pad_start 2 (decimal n)) e

-- The year that a month's book began in: the months from year 0 on, counted from April.
abbrev pub book : ℕ → ℕ → ℕ
book year month = (12 * year + month - 4) / 12

year_of-book :
    (year month : ℕ)
    → 1 ≤ year
    → 1 ≤ month
    → month ≤ 12
    → year_of (year, month) ≡ two (book year month) ++ two (book year month + 1)
unfolding year_of
year_of-book year month y lo hi = elim (Bool-cases (leb 4 month)) [
  | inl late ↦ let this : book year month ≡ year = ground arith in rw (late, this)
  | inr early ↦
      let last : book year month ≡ year - 1 = ground arith in
      let next : year - 1 + 1 ≡ year = omega arith in
      let later : (year == 0) ≡ false = ground arith in rw (early, later, last, next)
]

-- Two months of years from 1 on print the same financial year exactly if they lie in the same year
-- that runs from April to March, or in two that a whole number of centuries parts.
pub year_of_iff :
    (year month year' month' : ℕ)
    → 1 ≤ year
    → 1 ≤ month
    → month ≤ 12
    → 1 ≤ year'
    → 1 ≤ month'
    → month' ≤ 12
    → (year_of (year, month) ≡ year_of (year', month'))
      ↔ (book year month % 100 ≡ book year' month' % 100)
year_of_iff year month year' month' y lo hi y' lo' hi' =
    let b = book year month in
    let b' = book year' month' in
    let p = year_of-book year month y lo hi in
    let q = year_of-book year' month' y' lo' hi' in
    (
      (λ e. two-injective b b' (two (b + 1)) (two (b' + 1)) (sym p ∙ e ∙ q)),
      λ e.
          p
          ∙ ap (λ t. t ++ two (b + 1)) (two_of_residue b b' e)
          ∙ ap (λ t. two b' ++ t) (two_of_residue (b + 1) (b' + 1) (omega arith))
          ∙ sym q,
    )
