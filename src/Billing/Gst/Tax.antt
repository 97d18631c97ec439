-- ===== src/Billing/Gst/Tax.antt =====
-- src/billing/gst.ts: the heads that `splitTax` divides a tax into.
use drasken_labs_communicati.Prelude.Int.{ℤ, pos, negsuc}
use drasken_labs_communicati.Prelude.{
  ℕ, zero, suc, ◌+◌, ◌≤◌, ◌<◌, ◌≡◌, refl, ◌≢◌, ◌↔◌, Text, text_eq_iff, true, false, Option, none,
  some, [], ◌∷◌, arith, truthy, Bool-cases, inl, inr,
}
use drasken_labs_communicati.Billing.Gst.{TaxSplit, crosses_state, divide, split_tax}

-- The part of an amount that is money owed.
abbrev pub charged : ℤ → ℕ
charged (pos n) = n
charged (negsuc n) = 0

-- Both states are known, and they are different ones.
abbrev pub AreDifferent : Option Text → Option Text → Type 0
AreDifferent seller buyer = (truthy seller ≡ true) × (truthy buyer ≡ true) × (seller ≢ buyer)

-- What an invoice needs of the division of `tax` between a seller and a buyer.
pub record IsDivision (tax : ℕ) (seller buyer : Option Text) (split : TaxSplit) : Type 0 where
  pub total : split.cgst_amount + split.sgst_amount + split.igst_amount ≡ tax
  pub crossing : (split.inter_state ≡ true) ↔ ((0 < tax) × AreDifferent seller buyer)
  pub integrated : split.inter_state ≡ true → (split.cgst_amount ≡ 0) × (split.sgst_amount ≡ 0)
  pub local : split.inter_state ≡ false → split.igst_amount ≡ 0
  pub halves : (split.cgst_amount ≤ split.sgst_amount) × (split.sgst_amount ≤ split.cgst_amount + 1)

crosses_state_iff :
    (seller buyer : Option Text) → (crosses_state seller buyer ≡ true) ↔ AreDifferent seller buyer
unfolding crosses_state
crosses_state_iff none buyer = ground arith
crosses_state_iff (some []) buyer = ground arith
crosses_state_iff (some (c ∷ s)) none = ground arith
crosses_state_iff (some (c ∷ s)) (some []) = ground arith
crosses_state_iff (some (c ∷ s)) (some (d ∷ t)) = ground (arith, text_eq_iff (c ∷ s) (d ∷ t))

divide-IsDivision :
    (n : ℕ) (seller buyer : Option Text)
    → IsDivision (suc n) seller buyer (divide (suc n) (crosses_state seller buyer))
unfolding divide
divide-IsDivision n seller buyer = elim (Bool-cases (crosses_state seller buyer)) [
  | inl e ↦
      let apart = (crosses_state_iff seller buyer).0 e in
      rw e (record {
        total = omega arith;
        crossing = (λ _. (omega arith, apart), λ _. refl);
        integrated = λ _. (refl, refl);
        local = λ h. cc;
        halves = omega arith;
      })
  | inr e ↦ rw e (record {
    total = omega arith;
    crossing = (λ h. cc, λ h. let crosses = (crosses_state_iff seller buyer).1 h.1 in cc);
    integrated = λ h. cc;
    local = λ _. refl;
    halves = omega arith;
  })
]

-- Whatever the amount and the states, known or not: the three heads add up to the tax charged, IGST
-- is charged exactly when a positive tax crosses between two known states, it is then the whole
-- tax, and otherwise CGST and SGST differ by at most one paisa, the odd one falling on SGST.
pub split_tax-IsDivision :
    (tax : ℤ) (seller buyer : Option Text)
    → IsDivision (charged tax) seller buyer (split_tax tax seller buyer)
unfolding split_tax
split_tax-IsDivision (negsuc n) seller buyer = ground arith
split_tax-IsDivision (pos zero) seller buyer = ground arith
split_tax-IsDivision (pos (suc n)) seller buyer = divide-IsDivision n seller buyer
