-- ===== src/Billing/Subscriptions/Register.antt =====
-- src/billing/billing.service.ts: `register`, with the resubscription.
use drasken_labs_communicati.Prelude.Words.{or_else}
use drasken_labs_communicati.Prelude.{
  ℕ, ◌⊎◌, inl, inr, Text, false, List, [], ◌∷◌, ◌++◌, Option, none, some, text_eq, if◌then◌else◌,
}
use drasken_labs_communicati.Billing.Access.{SubscriptionStatus}
use drasken_labs_communicati.Billing.Subscriptions.Rows.{
  Row, Plan, RazorpaySubscription, Call, Razorpay,
}
use drasken_labs_communicati.Billing.Subscriptions.Remote.{at_seconds, to_status, is_finished}
use drasken_labs_communicati.Billing.Subscriptions.Offer.{
  Refusal, Outcome, Sellable, stop, finish, find, sellable_plan, update_sub, seconds_of,
}
use drasken_labs_communicati.Billing.Subscriptions.Change.{
  with_mandate, answered, paid_month_left, cancel_pending,
}

-- `orgCustomerId`: rows are written in the order of their creation.
abbrev pub customer_for : Text → Row → Option Text
customer_for org sub = if text_eq sub.sso_org_id org then sub.razorpay_customer_id else none

unfoldable pub org_customer_id : Text → List Row → Option Text
org_customer_id org [] = none
org_customer_id org (sub ∷ rows) = or_else (org_customer_id org rows) (customer_for org sub)

-- The customer that an organisation has, or a new one: what is asked, and the answer.
abbrev pub new_customer : Razorpay → Option Text → List Call × Option Text
new_customer razorpay none = (Call.create_customer ∷ [], razorpay.create_customer)
new_customer razorpay (some id) = ([], some id)

-- `register` refreshes a customer that it uses again; a refresh never throws.
abbrev pub refresh : Option Text → List Call
refresh none = []
refresh (some []) = []
refresh (some (c ∷ s)) = Call.update_customer (c ∷ s) ∷ []

abbrev pub pending_row : Text → RazorpaySubscription → Sellable → Option ℕ → Row → Row
pending_row customer created plan start_at sub = record sub {
  razorpay_customer_id = some customer;
  pending_razorpay_subscription_id = some created.id;
  pending_short_url = created.short_url;
  pending_plan_ref_id = some plan.plan.id;
  pending_plan_at = start_at;
}

-- Where the new mandate starts: at the end of the paid month, if it is not over.
abbrev pub start_of : Option ℕ → ℕ → Option ℕ
start_of end now = if paid_month_left end now then end else none

abbrev pub resubscribe_asked : List Call → ℕ → Row → Sellable → Text → List Call
resubscribe_asked before now sub plan id =
    before
    ++ Call.create_subscription (some id) plan.razorpay_plan_id
        (seconds_of (start_of sub.current_end now))
      ∷ []

abbrev pub resubscribe_made :
    List Call → ℕ → Row → Sellable → List Row → Text → RazorpaySubscription → Outcome
resubscribe_made before now sub plan rows id created =
    finish (resubscribe_asked before now sub plan id)
      (update_sub sub.id (pending_row id created plan (start_of sub.current_end now)) rows)

abbrev pub ask_resubscribe :
    List Call → Razorpay → ℕ → Row → Sellable → List Row → Text → Text → Outcome
ask_resubscribe before razorpay now sub plan rows id mandate =
    answered
      (razorpay.create_subscription (some id) plan.razorpay_plan_id
        (seconds_of (start_of sub.current_end now)))
      (resubscribe_asked before now sub plan id) rows (resubscribe_made before now sub plan rows id)

abbrev pub resubscribe_as : List Call → Razorpay → ℕ → Row → Sellable → List Row → Text → Outcome
resubscribe_as before razorpay now sub plan rows id =
    with_mandate sub before rows (ask_resubscribe before razorpay now sub plan rows id)

-- `startResubscribe`; the notes on the new subscription name the old mandate.
unfoldable pub start_resubscribe : Razorpay → ℕ → Row → Sellable → List Row → Outcome
start_resubscribe razorpay now sub plan rows =
    let (asked, customer) =
      new_customer razorpay
        (or_else sub.razorpay_customer_id (org_customer_id sub.sso_org_id rows)) in
    let before = cancel_pending sub.pending_razorpay_subscription_id ++ asked in
    answered customer before rows (resubscribe_as before razorpay now sub plan rows)

-- The columns that `register` writes.
abbrev pub registered_row : Text → RazorpaySubscription → Sellable → ℕ → Row → Row
registered_row customer created plan user sub = record sub {
  razorpay_customer_id = some customer;
  razorpay_subscription_id = some created.id;
  plan_id = created.plan_id;
  plan_ref_id = some plan.plan.id;
  status = to_status created.status;
  current_start = at_seconds created.current_start;
  current_end = at_seconds created.current_end;
  cancel_at_cycle_end = false;
  cancelled_at = none;
  short_url = created.short_url;
  created_by_user_id = user;
}

-- A row with the defaults of its columns.
abbrev pub blank_row : ℕ → Text → Row
blank_row id org = record {
  id = id;
  waba_id = none;
  sso_org_id = org;
  razorpay_customer_id = none;
  razorpay_subscription_id = none;
  plan_id = [];
  plan_ref_id = none;
  pending_plan_ref_id = none;
  pending_plan_at = none;
  status = SubscriptionStatus.created;
  current_start = none;
  current_end = none;
  cancel_at_cycle_end = false;
  cancelled_at = none;
  short_url = none;
  pending_razorpay_subscription_id = none;
  pending_short_url = none;
  payer_org_id = none;
  billing_group_id = none;
  created_by_user_id = 0;
}

abbrev pub write_registered : Option Row → ℕ → Text → (Row → Row) → List Row → List Row
write_registered (some sub) id org f rows = update_sub sub.id f rows
write_registered none id org f rows = rows ++ f (blank_row id org) ∷ []

abbrev pub customer_in : Option Row → Option Text → Option Text
customer_in none known = known
customer_in (some sub) known = or_else sub.razorpay_customer_id known

module _ (razorpay : Razorpay) (now next_id user : ℕ) (org : Text) where
  abbrev pub mandate_asked : List Call → Sellable → Text → List Call
  mandate_asked before plan id =
      before ++ Call.create_subscription (some id) plan.razorpay_plan_id none ∷ []

  abbrev pub mandate_made :
      List Call → Option Row → Sellable → List Row → Text → RazorpaySubscription → Outcome
  mandate_made before existing plan rows id created =
      finish (mandate_asked before plan id)
        (write_registered existing next_id org (registered_row id created plan user) rows)

  abbrev pub ask_mandate : List Call → Option Row → Sellable → List Row → Text → Outcome
  ask_mandate before existing plan rows id =
      answered (razorpay.create_subscription (some id) plan.razorpay_plan_id none)
        (mandate_asked before plan id) rows (mandate_made before existing plan rows id)

  -- The part of `register` that opens a first mandate, or a new one after a finished one.
  unfoldable pub open_mandate : Option Row → Sellable → List Row → Outcome
  open_mandate existing plan rows =
      let reused = customer_in existing (org_customer_id org rows) in
      let (asked, customer) = new_customer razorpay reused in
      let before = refresh reused ++ asked in
      answered customer before rows (ask_mandate before existing plan rows)

  abbrev pub register_over : Option Row → Sellable → List Row → Outcome
  register_over none plan rows = open_mandate none plan rows
  register_over (some sub) plan rows =
      if is_finished sub
      then open_mandate (some sub) plan rows
      else if sub.cancel_at_cycle_end
      then start_resubscribe razorpay now sub plan rows
      else stop Refusal.already_subscribed [] rows

  abbrev pub register_plan : Refusal ⊎ Sellable → Text → List Row → Outcome
  register_plan (inl why) payer rows = stop why [] rows
  register_plan (inr plan) payer rows =
      if text_eq payer org
      then register_over (find org rows) plan rows
      else stop Refusal.billed_through_agency [] rows

  -- `register`, with the organisation that `billingOrgFor` names.
  unfoldable pub register : List Plan → Text → Text → List Row → Outcome
  register plans code payer rows =
      if razorpay.is_configured
      then register_plan (sellable_plan plans code org) payer rows
      else stop Refusal.not_configured [] rows
