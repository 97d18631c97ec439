-- ===== src/Billing/Subscriptions/Reconcile.antt =====
-- src/billing/billing.service.ts: the hourly `reconcile`, what it does to the subscriptions.
use drasken_labs_communicati.Prelude.{
  ℕ, Text, Bool, true, false, not, ◌&&◌, List, [], ◌∷◌, Option, none, some, ltb, take,
  if◌then◌else◌,
}
use drasken_labs_communicati.Billing.Subscriptions.Rows.{Row, Plan, RazorpaySubscription, Razorpay}
use drasken_labs_communicati.Billing.Subscriptions.Remote.{apply_remote, is_finished}

module _ (plans : List Plan) (now : ℕ) where
  -- The rows that `reconcile` reads.
  abbrev pub is_stale : Row → Bool
  is_stale sub =
      not (is_finished sub)
      && (elim sub.current_end as (λ _. Bool) [ none ↦ true | some end ↦ ltb end now ]
          && elim sub.razorpay_subscription_id as (λ _. Bool) [ none ↦ false | some id ↦ true ])

  unfoldable pub stale : List Row → List Row
  stale [] = []
  stale (sub ∷ rows) = let rest = stale rows in if is_stale sub then sub ∷ rest else rest

  abbrev pub reconcile_with : Option RazorpaySubscription → Row → List Row → List Row
  reconcile_with none sub rows = rows
  reconcile_with (some remote) sub rows = apply_remote plans now sub remote rows

  -- `ownMandate` throws where there is none.
  abbrev pub fetch_own : Razorpay → Option Text → Option RazorpaySubscription
  fetch_own razorpay none = none
  fetch_own razorpay (some []) = none
  fetch_own razorpay (some (c ∷ s)) = razorpay.fetch_subscription (c ∷ s)

  unfoldable pub reconcile_each : Razorpay → List Row → List Row → List Row
  reconcile_each razorpay [] rows = rows
  reconcile_each razorpay (sub ∷ subs) rows =
      reconcile_each razorpay subs
        (reconcile_with (fetch_own razorpay sub.razorpay_subscription_id) sub rows)

  -- `reconcile`, what it does to the rows; an unreachable subscription is left.
  unfoldable pub reconcile : Razorpay → List Row → List Row
  reconcile razorpay rows =
      if razorpay.is_configured then reconcile_each razorpay (take 100 (stale rows)) rows else rows
