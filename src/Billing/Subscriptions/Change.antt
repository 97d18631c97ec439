-- ===== src/Billing/Subscriptions/Change.antt =====
-- src/billing/billing.service.ts: `changePlan`, with the upgrade and the downgrade, and `cancel`.
use drasken_labs_communicati.Prelude.Words.{or_else}
use drasken_labs_communicati.Prelude.Double.{to_double, floor_quotient}
use drasken_labs_communicati.Prelude.{
  ℕ, zero, suc, ◌-◌, ◌*◌, ◌==◌, ◌⊎◌, inl, inr, Text, Bool, true, false, ◌&&◌, List, [], ◌∷◌, ◌++◌,
  Option, none, some, ltb, leb, if◌then◌else◌,
}
use drasken_labs_communicati.Billing.Access.{SubscriptionStatus}
use drasken_labs_communicati.Billing.Subscriptions.Rows.{
  Row, Plan, RazorpaySubscription, Call, Razorpay,
}
use drasken_labs_communicati.Billing.Subscriptions.Remote.{to_status, is_finished}
use drasken_labs_communicati.Billing.Subscriptions.Offer.{
  Refusal, Outcome, Sellable, stop, finish, find, sellable_plan, update_sub, seconds_of,
}
use drasken_labs_communicati.Billing.Subscriptions.Effects.{plan_by_id}

-- `prorate`. The product of paise and milliseconds is a double, and so is its quotient.
abbrev pub smaller : ℕ → ℕ → ℕ
smaller a b = if leb a b then a else b

unfoldable pub prorate_over : ℕ → ℕ → ℕ → ℕ → ℕ
prorate_over difference start end now =
    if ltb start end && ltb now end
    then floor_quotient (to_double (difference * smaller (end - now) (end - start))) (end - start)
    else 0

-- The difference is of two prices, of which the first is the higher one; a bound that is missing
-- leaves nothing to make up.
unfoldable pub prorate : ℕ → Option ℕ → Option ℕ → ℕ → ℕ
prorate difference none end now = 0
prorate difference (some start) none now = 0
prorate difference (some start) (some end) now = prorate_over difference start end now

-- `ownMandate`, of an operation that goes on with it.
abbrev pub with_mandate : Row → List Call → List Row → (Text → Outcome) → Outcome
with_mandate sub calls rows next = elim sub.razorpay_subscription_id as (λ _. Outcome) [
  | none ↦ stop Refusal.billed_through_agency calls rows
  | some [] ↦ stop Refusal.billed_through_agency calls rows
  | some (c ∷ s) ↦ next (c ∷ s)
]

-- A call that throws ends the operation.
abbrev pub answered {ℓ} : {A : Type ℓ} → Option A → List Call → List Row → (A → Outcome) → Outcome
answered none calls rows next = stop Refusal.provider_failed calls rows
answered (some a) calls rows next = next a

-- `currentPrice`.
abbrev pub price_of : Option Plan → Option ℕ
price_of none = none
price_of (some plan) = plan.price

unfoldable pub current_price : Razorpay → List Plan → Row → Option ℕ
current_price razorpay plans sub =
    or_else (price_of (plan_by_id sub.plan_ref_id plans)) (razorpay.plan_amount sub.plan_id)

-- The difference that an upgrade makes up, where both prices can be read and the new one is higher.
abbrev pub raise_of : Option ℕ → Option ℕ → Option ℕ
raise_of none target = none
raise_of (some price) none = none
raise_of (some price) (some target) = if ltb price target then some (target - price) else none

abbrev pub addon_of : Text → ℕ → List Call
addon_of id zero = []
addon_of id (suc amount) = Call.add_addon id (suc amount) 1 ∷ []

abbrev pub await_upgrade : RazorpaySubscription → Sellable → Row → Row
await_upgrade created target sub = record sub {
  pending_razorpay_subscription_id = some created.id;
  pending_short_url = created.short_url;
  pending_plan_ref_id = some target.plan.id;
  pending_plan_at = sub.current_end;
}

abbrev pub upgrade_asked : Row → Sellable → List Call
upgrade_asked sub target =
    Call.create_subscription sub.razorpay_customer_id target.razorpay_plan_id
      (seconds_of sub.current_end)
    ∷ []

abbrev pub upgrade_made : ℕ → Row → Sellable → ℕ → List Row → RazorpaySubscription → Outcome
upgrade_made now sub target difference rows created =
    finish
      (upgrade_asked sub target
        ++ addon_of created.id (prorate difference sub.current_start sub.current_end now))
      (update_sub sub.id (await_upgrade created target) rows)

abbrev pub ask_upgrade : Razorpay → ℕ → Row → Sellable → ℕ → List Row → Text → Outcome
ask_upgrade razorpay now sub target difference rows mandate =
    answered
      (razorpay.create_subscription sub.razorpay_customer_id target.razorpay_plan_id
        (seconds_of sub.current_end))
      (upgrade_asked sub target) rows (upgrade_made now sub target difference rows)

-- `startUpgrade`; the notes on the new subscription name the mandate, which is asked for first.
unfoldable pub start_upgrade : Razorpay → ℕ → Row → Sellable → ℕ → List Row → Outcome
start_upgrade razorpay now sub target difference rows =
    with_mandate sub [] rows (ask_upgrade razorpay now sub target difference rows)

abbrev pub await_renewal : Sellable → Row → Row
await_renewal target sub = record sub {
  pending_plan_ref_id = some target.plan.id;
  pending_plan_at = sub.current_end;
  pending_razorpay_subscription_id = none;
  pending_short_url = none;
}

abbrev pub downgrade_asked : Sellable → Text → List Call
downgrade_asked target mandate = Call.change_plan_at_cycle_end mandate target.razorpay_plan_id ∷ []

abbrev pub downgrade_made : Row → Sellable → List Row → Text → RazorpaySubscription → Outcome
downgrade_made sub target rows mandate changed =
    finish (downgrade_asked target mandate) (update_sub sub.id (await_renewal target) rows)

abbrev pub ask_downgrade : Razorpay → Row → Sellable → List Row → Text → Outcome
ask_downgrade razorpay sub target rows mandate =
    answered (razorpay.change_plan_at_cycle_end mandate target.razorpay_plan_id)
      (downgrade_asked target mandate) rows (downgrade_made sub target rows mandate)

-- `scheduleDowngrade`.
unfoldable pub schedule_downgrade : Razorpay → Row → Sellable → List Row → Outcome
schedule_downgrade razorpay sub target rows =
    with_mandate sub [] rows (ask_downgrade razorpay sub target rows)

abbrev pub is_awaiting : SubscriptionStatus → Bool
is_awaiting SubscriptionStatus.created = true
is_awaiting SubscriptionStatus.authenticated = true
is_awaiting _ = false

abbrev pub is_on : ℕ → Option ℕ → Bool
is_on id none = false
is_on id (some held) = held == id

-- The guards of `changePlan`, in their order.
unfoldable pub change_guard : Row → Sellable → Option Refusal
change_guard sub target =
    if is_finished sub
    then some Refusal.has_ended
    else if sub.cancel_at_cycle_end
    then some Refusal.set_to_end
    else if is_awaiting sub.status
    then some Refusal.not_authorised
    else if is_on target.plan.id sub.plan_ref_id
    then some Refusal.already_on_plan
    else none

abbrev pub upgrade_or_downgrade : Option ℕ → Razorpay → ℕ → Row → Sellable → List Row → Outcome
upgrade_or_downgrade none razorpay now sub target rows = schedule_downgrade razorpay sub target rows
upgrade_or_downgrade (some difference) razorpay now sub target rows =
    start_upgrade razorpay now sub target difference rows

abbrev pub change_allowed :
    Option Refusal → Razorpay → List Plan → ℕ → Row → Sellable → List Row → Outcome
change_allowed (some why) razorpay plans now sub target rows = stop why [] rows
change_allowed none razorpay plans now sub target rows =
    upgrade_or_downgrade (raise_of (current_price razorpay plans sub) target.plan.price) razorpay
      now sub target rows

abbrev pub change_found : Option Row → Razorpay → List Plan → ℕ → Sellable → List Row → Outcome
change_found none razorpay plans now target rows = stop Refusal.no_subscription [] rows
change_found (some sub) razorpay plans now target rows =
    change_allowed (change_guard sub target) razorpay plans now sub target rows

abbrev pub change_to : Refusal ⊎ Sellable → Razorpay → List Plan → ℕ → Text → List Row → Outcome
change_to (inl why) razorpay plans now org rows = stop why [] rows
change_to (inr target) razorpay plans now org rows =
    change_found (find org rows) razorpay plans now target rows

-- `changePlan`.
unfoldable pub change_plan : Razorpay → List Plan → ℕ → Text → Text → List Row → Outcome
change_plan razorpay plans now org code rows =
    if razorpay.is_configured
    then change_to (sellable_plan plans code org) razorpay plans now org rows
    else stop Refusal.not_configured [] rows

-- A month that is paid for and not over.
abbrev pub paid_month_left : Option ℕ → ℕ → Bool
paid_month_left none now = false
paid_month_left (some end) now = ltb now end

abbrev pub cancel_pending : Option Text → List Call
cancel_pending none = []
cancel_pending (some []) = []
cancel_pending (some (c ∷ s)) = Call.cancel_subscription (c ∷ s) false ∷ []

abbrev pub mark_cancelled : RazorpaySubscription → Bool → ℕ → Row → Row
mark_cancelled remote at_end now sub = record sub {
  status = to_status remote.status;
  cancel_at_cycle_end = at_end;
  cancelled_at = some now;
  short_url = none;
  pending_razorpay_subscription_id = none;
  pending_short_url = none;
}

abbrev pub cancel_guard : Row → Option Refusal
cancel_guard sub =
    if is_finished sub
    then some Refusal.has_ended
    else if sub.cancel_at_cycle_end
    then some Refusal.set_to_end
    else none

abbrev pub cancel_asked : ℕ → Row → Text → List Call
cancel_asked now sub mandate =
    Call.cancel_subscription mandate (paid_month_left sub.current_end now) ∷ []

abbrev pub cancel_made : ℕ → Row → List Row → Text → RazorpaySubscription → Outcome
cancel_made now sub rows mandate remote =
    finish (cancel_asked now sub mandate ++ cancel_pending sub.pending_razorpay_subscription_id)
      (update_sub sub.id (mark_cancelled remote (paid_month_left sub.current_end now) now) rows)

abbrev pub ask_cancel : Razorpay → ℕ → Row → List Row → Text → Outcome
ask_cancel razorpay now sub rows mandate =
    answered (razorpay.cancel_subscription mandate (paid_month_left sub.current_end now))
      (cancel_asked now sub mandate) rows (cancel_made now sub rows mandate)

abbrev pub cancel_allowed : Option Refusal → Razorpay → ℕ → Row → List Row → Outcome
cancel_allowed (some why) razorpay now sub rows = stop why [] rows
cancel_allowed none razorpay now sub rows =
    with_mandate sub [] rows (ask_cancel razorpay now sub rows)

abbrev pub cancel_found : Option Row → Razorpay → ℕ → List Row → Outcome
cancel_found none razorpay now rows = stop Refusal.no_subscription [] rows
cancel_found (some sub) razorpay now rows = cancel_allowed (cancel_guard sub) razorpay now sub rows

-- `cancel`; a pending mandate that cannot be cancelled is logged and passed over.
unfoldable pub cancel : Razorpay → ℕ → Text → List Row → Outcome
cancel razorpay now org rows = cancel_found (find org rows) razorpay now rows
