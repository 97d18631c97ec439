-- ===== src/Billing/Subscriptions/Proration.antt =====
-- src/billing/billing.service.ts: what an upgrade makes up for the rest of the month.
use native.Mathlib.Nat.{mul-le-mul_left, le_of_mul-le-mul_right}
use drasken_labs_communicati.Prelude.Double.{
  two_53, to_double, floor_quotient, to_double-exact, floor_quotient-IsFloor,
}
use drasken_labs_communicati.Prelude.{ℕ, ◌+◌, ◌-◌, ◌*◌, ◌≤◌, ◌<◌, ◌≡◌, refl, some, arith, ltb, true}
use drasken_labs_communicati.Billing.Subscriptions.Change.{prorate, prorate_over, smaller}

-- Within the cycle, what is made up is the quotient that JavaScript computes, rounded down.
prorate_within :
    (difference start end now : ℕ)
    → start ≤ now
    → now < end
    → prorate difference (some start) (some end) now
      ≡ floor_quotient (to_double (difference * (end - now))) (end - start)
unfolding prorate prorate_over
prorate_within difference start end now lo hi =
    let begun : ltb start end ≡ true = ground arith in
    let left : ltb now end ≡ true = ground arith in
    let part : smaller (end - now) (end - start) ≡ end - now = ground arith in
    rw (begun, left, part) refl

-- At an instant of the cycle, as long as the difference of the prices in paise times the milliseconds
-- that are left is below 2 ^ 53: what an upgrade makes up is the difference by the part of the cycle
-- that is left, rounded down. It is at most the difference, it is worth no more than that part, and a
-- paisa more would be worth more than it.
pub prorate-IsShare :
    (difference start end now : ℕ)
    → start ≤ now
    → now < end
    → difference * (end - now) < two_53
    → (prorate difference (some start) (some end) now ≤ difference)
      × (prorate difference (some start) (some end) now * (end - start) ≤ difference * (end - now))
      × (difference * (end - now)
          < (prorate difference (some start) (some end) now + 1) * (end - start))
prorate-IsShare difference start end now lo hi small =
    let whole = difference * (end - now) in
    let cycle = end - start in
    let (low, high) = floor_quotient-IsFloor whole cycle (omega arith) small in
    let part = mul-le-mul_left {m = end - now} {n = cycle} difference (omega arith) in
    rw (prorate_within difference start end now lo hi, to_double-exact whole small)
      (
        le_of_mul-le-mul_right {m = floor_quotient whole cycle} {n = difference} {k = cycle}
            (omega arith) (omega arith),
        low,
        high,
      )
