-- ===== src/Billing/Invoices/Lines.antt =====
-- src/billing/invoice.service.ts: the lines of an invoice add up to what was charged.
use native.Mathlib.Nat.{mul-div-le, lt-mul-div-succ}
use drasken_labs_communicati.Prelude.Int.{ℤ, pos, ◌+ℤ◌, ◌-ℤ◌}
use drasken_labs_communicati.Prelude.{
  ℕ, zero, suc, ◌+◌, ◌*◌, ◌≤◌, ◌<◌, ◌≡◌, refl, ap, ◌∙◌, List, [], ◌∷◌, arith,
}
use drasken_labs_communicati.Billing.Invoices.Draft.{
  DraftLine, InvoiceLine, round_div, to_line, total_weight, or_one, allocate, apportion,
}
use drasken_labs_communicati.Billing.Invoices.Views.{sum_amounts}

-- A rounded quotient, taken `b` times, is within half of `b` of what was divided.
pub round_div_low : (a b : ℕ) → 0 < b → 2 * (b * round_div a b) ≤ 2 * a + b
unfolding round_div
round_div_low a b h = let low = mul-div-le (2 * a + b) (2 * b) in omega arith

pub round_div_high : (a b : ℕ) → 0 < b → 2 * a < 2 * (b * round_div a b) + b
unfolding round_div
round_div_high a b h =
    let high = lt-mul-div-succ (2 * a + b) {b = 2 * b} (omega arith) in omega arith

-- What is taken from an amount and then added to the rest of it.
take_part : (s t a : ℕ) → pos a +ℤ (pos s -ℤ pos (t + a)) ≡ pos s -ℤ pos t
unfolding ◌+ℤ◌ ◌-ℤ◌
take_part s t a = ground arith

take_last : (s t : ℕ) → (pos s -ℤ pos t) +ℤ pos 0 ≡ pos s -ℤ pos t
unfolding ◌+ℤ◌ ◌-ℤ◌
take_last s t = ground arith

nothing_taken : (s : ℕ) → pos s -ℤ pos 0 ≡ pos s
unfolding ◌-ℤ◌
nothing_taken s = ground arith

sum-allocate :
    (subtotal total allocated index : ℕ) (d : DraftLine) (rest : List DraftLine)
    → sum_amounts (allocate subtotal total allocated index (d ∷ rest))
      ≡ pos subtotal -ℤ pos allocated
unfolding sum_amounts allocate
sum-allocate subtotal total allocated index d [] = take_last subtotal allocated
sum-allocate subtotal total allocated index d (e ∷ rest) =
    let amount = round_div (subtotal * d.weight) total in
    ap (λ z. pos amount +ℤ z) (sum-allocate subtotal total (allocated + amount) (suc index) e rest)
    ∙ take_part subtotal allocated amount

-- An amount is within half a paisa of its share, `weight` parts in `total` of the subtotal.
abbrev pub IsNear : ℕ → ℕ → ℕ → ℕ → Type 0
IsNear subtotal total weight amount =
    (2 * (total * amount) ≤ 2 * (subtotal * weight) + total)
    × (2 * (subtotal * weight) < 2 * (total * amount) + total)

-- All lines but the last are of their drafts, in their order, and near their shares.
pub AreShares : ℕ → ℕ → ℕ → List DraftLine → List InvoiceLine → Type 0
AreShares subtotal total index [] lines = lines ≡ []
AreShares subtotal total index (d ∷ []) lines = (last : ℤ) × (lines ≡ to_line d last index ∷ [])
AreShares subtotal total index (d ∷ e ∷ rest) [] = ⊥
AreShares subtotal total index (d ∷ e ∷ rest) (line ∷ lines) =
    (amount : ℕ) × (line ≡ to_line d (pos amount) index)
    × IsNear subtotal total d.weight amount
    × AreShares subtotal total (suc index) (e ∷ rest) lines

allocate-AreShares :
    (subtotal total allocated index : ℕ) (drafts : List DraftLine)
    → 0 < total
    → AreShares subtotal total index drafts (allocate subtotal total allocated index drafts)
unfolding AreShares allocate
allocate-AreShares subtotal total allocated index [] h = refl
allocate-AreShares subtotal total allocated index (d ∷ []) h = (pos subtotal -ℤ pos allocated, refl)
allocate-AreShares subtotal total allocated index (d ∷ e ∷ rest) h =
    let amount = round_div (subtotal * d.weight) total in
    (
      amount,
      refl,
      (round_div_low (subtotal * d.weight) total h, round_div_high (subtotal * d.weight) total h),
      allocate-AreShares subtotal total (allocated + amount) (suc index) (e ∷ rest) h,
    )

or_one_positive : (n : ℕ) → 0 < or_one n
or_one_positive zero = omega arith
or_one_positive (suc n) = omega arith

pub apportion-IsExact :
    (d : DraftLine) (rest : List DraftLine) (subtotal : ℕ)
    → (sum_amounts (apportion (d ∷ rest) subtotal) ≡ pos subtotal)
      × AreShares subtotal
          (or_one (total_weight (d ∷ rest)))
          0
          (d ∷ rest)
          (apportion (d ∷ rest) subtotal)
unfolding apportion
apportion-IsExact d rest subtotal =
    let total = or_one (total_weight (d ∷ rest)) in
    (
      sum-allocate subtotal total 0 0 d rest ∙ nothing_taken subtotal,
      allocate-AreShares subtotal total 0 0 (d ∷ rest) (or_one_positive (total_weight (d ∷ rest))),
    )
