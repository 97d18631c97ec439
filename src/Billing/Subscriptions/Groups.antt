-- ===== src/Billing/Subscriptions/Groups.antt =====
-- src/billing/agency-billing.service.ts: a charge of an agency's mandate (`applyToGroup`), which covers
-- the clients that ride on it.
use drasken_labs_communicati.Prelude.Words.{or_else}
use drasken_labs_communicati.Prelude.Table.{upsert_first}
use drasken_labs_communicati.Prelude.{
  ℕ, ◌==◌, Text, codes, List, [], ◌∷◌, ◌++◌, Bool, false, Option, none, some, map, text_eq,
  if◌then◌else◌,
}
use drasken_labs_communicati.Billing.Access.{SubscriptionStatus}
use drasken_labs_communicati.Billing.Subscriptions.Rows.{
  Row, Group, RazorpaySubscription, PaymentData, PaymentRow,
}
use drasken_labs_communicati.Billing.Subscriptions.Remote.{
  at_seconds, statuses, is_payment, new_payment,
}

-- The status as it is written, unread: the table refuses one that is none of the column's.
unfoldable pub enum_in : Text → List (Text × SubscriptionStatus) → Option SubscriptionStatus
enum_in status [] = none
enum_in status ((name, s) ∷ rest) = if text_eq name status then some s else enum_in status rest

unfoldable pub enum_status : Text → Option SubscriptionStatus
enum_status status =
    enum_in status (statuses ++ (codes "superseded", SubscriptionStatus.superseded) ∷ [])

abbrev pub is_group : Text → Group → Bool
is_group id group = text_eq group.razorpay_subscription_id id

abbrev pub group_key : Group → ℕ
group_key group = group.id

abbrev pub charge_group : SubscriptionStatus → RazorpaySubscription → Group → Group
charge_group status entity group = record group {
  status = status;
  current_start = or_else (at_seconds entity.current_start) group.current_start;
  current_end = or_else (at_seconds entity.current_end) group.current_end;
}

abbrev pub rides_on : ℕ → Option ℕ → Bool
rides_on id none = false
rides_on id (some group) = group == id

abbrev pub charge_client : SubscriptionStatus → RazorpaySubscription → Row → Row
charge_client status entity sub = record sub {
  status = status;
  current_start = or_else (at_seconds entity.current_start) sub.current_start;
  current_end = or_else (at_seconds entity.current_end) sub.current_end;
}

-- `updateMany` of the clients on the group.
abbrev pub charge_if : ℕ → SubscriptionStatus → RazorpaySubscription → Row → Row
charge_if id status entity sub =
    if rides_on id sub.billing_group_id then charge_client status entity sub else sub

unfoldable pub charge_clients : ℕ → SubscriptionStatus → RazorpaySubscription → List Row → List Row
charge_clients id status entity rows = map (charge_if id status entity) rows

-- The organisations of the clients.
unfoldable pub clients_on : ℕ → List Row → List Text
clients_on id [] = []
clients_on id (sub ∷ rows) =
    let rest = clients_on id rows in
    if rides_on id sub.billing_group_id then sub.sso_org_id ∷ rest else rest

-- The upsert of the debit: one that is there takes the new status and instant alone.
abbrev pub with_verdict : PaymentData → PaymentRow → PaymentRow
with_verdict details row = record row {
  details = record (row.details) { status = details.status; paid_at = details.paid_at };
}

unfoldable pub write_group_payment : ℕ → ℕ → PaymentData → List PaymentRow → List PaymentRow
write_group_payment id group_id details payments =
    upsert_first (is_payment details.razorpay_payment_id)
      (new_payment id none (some group_id) details) (with_verdict details) payments
