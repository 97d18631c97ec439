-- ===== src/Billing/Subscriptions/Kept.antt =====
-- src/billing/billing.service.ts: what a change of tier leaves as it was.
use mathlib.Core.Option
use drasken_labs_communicati.Prelude.{
  ℕ, ◌≡◌, refl, ap, ◌∙◌, Text, Bool, true, false, List, [], Option, none, some, inl, inr, ◌⊎◌, ◌==◌,
  if◌then◌else◌,
}
use drasken_labs_communicati.Prelude.Table.{find_row, update_row, find_row-update_row}
use drasken_labs_communicati.Billing.Access.{SubscriptionStatus}
use drasken_labs_communicati.Billing.Subscriptions.Rows.{Row, Plan, Razorpay}
use drasken_labs_communicati.Billing.Subscriptions.Remote.{row_key}
use drasken_labs_communicati.Billing.Subscriptions.Offer.{Refusal, Sellable, find, sellable_plan}
use drasken_labs_communicati.Billing.Subscriptions.Change.{
  change_plan, change_to, change_found, change_allowed, change_guard, upgrade_or_downgrade,
  start_upgrade, schedule_downgrade, ask_upgrade, upgrade_asked, upgrade_made, await_upgrade,
  ask_downgrade, downgrade_asked, downgrade_made, await_renewal, raise_of, current_price,
}
use drasken_labs_communicati.Billing.Subscriptions.Refused.{
  with_mandate-holds, answered-holds, if_holds,
}

-- What access and the limits are read from, and the mandate that is debited.
abbrev pub held : Row → SubscriptionStatus × Option ℕ × Option ℕ × Option Text
held sub = (sub.status, sub.plan_ref_id, sub.current_end, sub.razorpay_subscription_id)

abbrev pub held_of : ℕ → List Row → Option (SubscriptionStatus × Option ℕ × Option ℕ × Option Text)
held_of id rows = Option.map held (find_row row_key id rows)

-- Every subscription holds what it held.
pub record AreHeld (before after : List Row) : Type 0 where
  pub same : (id : ℕ) → held_of id after ≡ held_of id before

AreHeld-refl : (rows : List Row) → AreHeld rows rows
AreHeld-refl rows = record { same = λ id. refl }

mapped_held :
    (f : Row → Row) (hit : Bool) (found : Option Row)
    → ((sub : Row) → held (f sub) ≡ held sub)
    → Option.map held (if hit then Option.map f found else found) ≡ Option.map held found
mapped_held f true none h = refl
mapped_held f true (some sub) h = ap some (h sub)
mapped_held f false found h = refl

update_row-AreHeld :
    (k : ℕ) (f : Row → Row) (rows : List Row)
    → ((sub : Row) → row_key (f sub) ≡ row_key sub)
    → ((sub : Row) → held (f sub) ≡ held sub)
    → AreHeld rows (update_row row_key k f rows)
update_row-AreHeld k f rows key h = record {
  same = λ id.
      ap (Option.map held) (find_row-update_row row_key k id f rows key)
      ∙ mapped_held f (k == id) (find_row row_key id rows) h;
}

module _ (razorpay : Razorpay) (now : ℕ) where
  start_upgrade-AreHeld :
      (sub : Row) (target : Sellable) (difference : ℕ) (rows : List Row)
      → AreHeld rows (start_upgrade razorpay now sub target difference rows).rows
  unfolding start_upgrade
  start_upgrade-AreHeld sub target difference rows =
      with_mandate-holds (λ o. AreHeld rows o.rows) sub [] rows
        (ask_upgrade razorpay now sub target difference rows) (AreHeld-refl rows)
        (λ mandate.
          answered-holds (λ o. AreHeld rows o.rows) _ (upgrade_asked sub target) rows
            (upgrade_made now sub target difference rows) (AreHeld-refl rows)
            (λ created.
              update_row-AreHeld sub.id (await_upgrade created target) rows (λ a. refl)
                (λ a. refl)))

  schedule_downgrade-AreHeld :
      (sub : Row) (target : Sellable) (rows : List Row)
      → AreHeld rows (schedule_downgrade razorpay sub target rows).rows
  unfolding schedule_downgrade
  schedule_downgrade-AreHeld sub target rows =
      with_mandate-holds (λ o. AreHeld rows o.rows) sub [] rows
        (ask_downgrade razorpay sub target rows) (AreHeld-refl rows)
        (λ mandate.
          answered-holds (λ o. AreHeld rows o.rows) _ (downgrade_asked target mandate) rows
            (downgrade_made sub target rows mandate) (AreHeld-refl rows)
            (λ changed.
              update_row-AreHeld sub.id (await_renewal target) rows (λ a. refl) (λ a. refl)))

  upgrade_or_downgrade-AreHeld :
      (raise : Option ℕ) (sub : Row) (target : Sellable) (rows : List Row)
      → AreHeld rows (upgrade_or_downgrade raise razorpay now sub target rows).rows
  upgrade_or_downgrade-AreHeld none sub target rows = schedule_downgrade-AreHeld sub target rows
  upgrade_or_downgrade-AreHeld (some difference) sub target rows =
      start_upgrade-AreHeld sub target difference rows

  change_allowed-AreHeld :
      (guard : Option Refusal) (plans : List Plan) (sub : Row) (target : Sellable) (rows : List Row)
      → AreHeld rows (change_allowed guard razorpay plans now sub target rows).rows
  change_allowed-AreHeld (some why) plans sub target rows = AreHeld-refl rows
  change_allowed-AreHeld none plans sub target rows =
      upgrade_or_downgrade-AreHeld (raise_of (current_price razorpay plans sub) target.plan.price)
        sub target rows

  change_found-AreHeld :
      (found : Option Row) (plans : List Plan) (target : Sellable) (rows : List Row)
      → AreHeld rows (change_found found razorpay plans now target rows).rows
  change_found-AreHeld none plans target rows = AreHeld-refl rows
  change_found-AreHeld (some sub) plans target rows =
      change_allowed-AreHeld (change_guard sub target) plans sub target rows

  change_to-AreHeld :
      (choice : Refusal ⊎ Sellable) (plans : List Plan) (org : Text) (rows : List Row)
      → AreHeld rows (change_to choice razorpay plans now org rows).rows
  change_to-AreHeld (inl why) plans org rows = AreHeld-refl rows
  change_to-AreHeld (inr target) plans org rows =
      change_found-AreHeld (find org rows) plans target rows

  -- Whatever tier is asked for and whatever Razorpay answers: until the money is authorised a change of tier, up or
  -- down, moves no subscription's status, tier, paid period or mandate, which access and the limits
  -- are read from.
  pub change_plan-AreHeld :
      (plans : List Plan) (org code : Text) (rows : List Row)
      → AreHeld rows (change_plan razorpay plans now org code rows).rows
  unfolding change_plan
  change_plan-AreHeld plans org code rows =
      if_holds (λ o. AreHeld rows o.rows) razorpay.is_configured _ _
        (change_to-AreHeld (sellable_plan plans code org) plans org rows) (AreHeld-refl rows)
