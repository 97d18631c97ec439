-- ===== src/Billing/Subscriptions/Effects.antt =====
-- src/billing/billing.service.ts: what `handleWebhook` asks of the services around it.
use drasken_labs_communicati.Prelude.Words.{or_value}
use drasken_labs_communicati.Prelude.Table.{find_first}
use drasken_labs_communicati.Prelude.{
  ℕ, ◌==◌, Text, codes, Bool, true, false, not, ◌&&◌, ◌||◌, List, [], ◌∷◌, Option, none, some,
  text_eq, ltb, if◌then◌else◌,
}
use drasken_labs_communicati.Billing.Access.{SubscriptionStatus, status_grants}
use drasken_labs_communicati.Billing.Invoices.Draft.{InvoiceRequest}
use drasken_labs_communicati.Billing.Subscriptions.Rows.{
  Group, Row, Plan, RazorpaySubscription, PaymentRow, PaymentData,
}
use drasken_labs_communicati.Billing.Subscriptions.Remote.{at_seconds}

pub data Effect : Type 0 where
  provision : (sub : Row) → Effect
  issue_invoice : (request : InvoiceRequest) → Effect
  bill_overage : (sub : Row) → Effect
  invalidate_payer : (sso_org_id : Text) → Effect
  mail_charged : (user_id : ℕ) (sso_org_id : Text) (current_end : ℕ) → Effect
  mail_payment_failed :
      (user_id : ℕ) (sso_org_id : Text) (halted : Bool) (current_end : Option ℕ) → Effect

-- `provisionIfNewlyPaid`, on the edge where access begins.
abbrev pub row_grants : ℕ → Row → Bool
row_grants now sub = status_grants sub.status sub.current_end now

unfoldable pub provision_if_newly_paid : ℕ → Row → Row → List Effect
provision_if_newly_paid now before after =
    if not (row_grants now before) && row_grants now after then provision after ∷ [] else []

abbrev pub is_status : SubscriptionStatus → SubscriptionStatus → Bool
is_status SubscriptionStatus.active SubscriptionStatus.active = true
is_status SubscriptionStatus.halted SubscriptionStatus.halted = true
is_status _ _ = false

abbrev pub after_end : Option ℕ → Option ℕ → Option ℕ
after_end none known = none
after_end (some reported) known = if ltb (or_value known 0) reported then some reported else none

-- `notify`.
unfoldable pub notify : Text → Row → SubscriptionStatus → Option ℕ → List Effect
notify event sub status current_end =
    if text_eq event (codes "subscription.charged")
      || text_eq event (codes "subscription.activated")
    then elim (if is_status SubscriptionStatus.active status
          then after_end current_end sub.current_end
          else none)
        as (λ _. List Effect) [
          | none ↦ []
          | some end ↦ mail_charged sub.created_by_user_id sub.sso_org_id end ∷ []
        ]
    else if text_eq event (codes "subscription.pending")
        || text_eq event (codes "subscription.halted")
    then mail_payment_failed sub.created_by_user_id sub.sso_org_id
        (is_status SubscriptionStatus.halted status) current_end
      ∷ []
    else []

abbrev pub is_captured : PaymentData → Bool
is_captured details = text_eq details.status (codes "captured")

-- The request that an invoice is raised from.
unfoldable pub invoice_request :
    (payment_id : ℕ) (details : PaymentData) (sso_org_id : Text) (group : Option ℕ) (user_id : ℕ)
    (plan_code plan_name : Option Text) (period_start period_end : Option ℕ)
    → InvoiceRequest
invoice_request payment_id details sso_org_id group user_id plan_code plan_name period_start
      period_end =
    record {
      payment_id = some payment_id;
      razorpay_payment_id = details.razorpay_payment_id;
      razorpay_invoice_id = details.razorpay_invoice_id;
      sso_org_id = sso_org_id;
      billing_group_id = group;
      user_id = user_id;
      plan_code = plan_code;
      plan_name = plan_name;
      amount = details.amount;
      currency = details.currency;
      paid_at = details.paid_at;
      method = details.method;
      method_detail = details.method_detail;
      period_start = period_start;
      period_end = period_end;
    }

abbrev pub plan_by_id : Option ℕ → List Plan → Option Plan
plan_by_id none plans = none
plan_by_id (some id) plans = find_first (λ p. p.id == id) plans

abbrev pub code_of : Option Plan → Option Text
code_of none = none
code_of (some p) = some p.code

abbrev pub name_of : Option Plan → Option Text
name_of none = none
name_of (some p) = some p.name

abbrev pub own_request : List Plan → Row → RazorpaySubscription → PaymentRow → InvoiceRequest
own_request plans sub entity row =
    let plan = plan_by_id sub.plan_ref_id plans in
    invoice_request row.id row.details sub.sso_org_id none sub.created_by_user_id (code_of plan)
      (name_of plan) (at_seconds entity.current_start) (at_seconds entity.current_end)

abbrev pub own_invoice : List Plan → Row → RazorpaySubscription → Option PaymentRow → List Effect
own_invoice plans sub entity none = []
own_invoice plans sub entity (some row) =
    if is_captured row.details then issue_invoice (own_request plans sub entity row) ∷ [] else []

-- The invoice of a group's debit, addressed to the agency.
abbrev pub group_invoice :
    List Plan → Group → RazorpaySubscription → Option PaymentRow → List Effect
group_invoice plans group entity none = []
group_invoice plans group entity (some row) =
    if is_captured row.details
    then issue_invoice (
        invoice_request row.id row.details group.agency_org_id (some group.id)
          group.created_by_user_id (code_of (plan_by_id (some group.plan_ref_id) plans))
          (name_of (plan_by_id (some group.plan_ref_id) plans)) (at_seconds entity.current_start)
          (at_seconds entity.current_end))
      ∷ []
    else []
