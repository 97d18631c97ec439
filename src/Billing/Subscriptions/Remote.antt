-- ===== src/Billing/Subscriptions/Remote.antt =====
-- src/billing/billing.service.ts: the state at Razorpay applied to our row (`applyRemote`, `tierFor`),
-- and a payment recorded.
use drasken_labs_communicati.Prelude.Words.{or_else, or_value}
use drasken_labs_communicati.Prelude.Table.{find_first, update_row, upsert_first}
use drasken_labs_communicati.Prelude.{
  ℕ, zero, suc, ◌*◌, Text, codes, Bool, true, false, List, [], ◌∷◌, ◌++◌, Option, none, some,
  text_eq, truthy, ltb, if◌then◌else◌,
}
use drasken_labs_communicati.Billing.Access.{SubscriptionStatus}
use drasken_labs_communicati.Billing.Subscriptions.Rows.{
  Row, Plan, RazorpaySubscription, Card, RazorpayPayment, PaymentRow, PaymentData,
}

-- `at`: no instant and the instant 0 are the same.
abbrev pub at_seconds : Option ℕ → Option ℕ
at_seconds none = none
at_seconds (some zero) = none
at_seconds (some (suc s)) = some (suc s * 1000)

-- `STATUSES`, each with what it is as a status of ours.
abbrev pub statuses : List (Text × SubscriptionStatus)
statuses =
    (codes "created", SubscriptionStatus.created)
    ∷ (codes "authenticated", SubscriptionStatus.authenticated)
    ∷ (codes "active", SubscriptionStatus.active)
    ∷ (codes "pending", SubscriptionStatus.pending)
    ∷ (codes "halted", SubscriptionStatus.halted)
    ∷ (codes "cancelled", SubscriptionStatus.cancelled)
    ∷ (codes "completed", SubscriptionStatus.completed)
    ∷ (codes "expired", SubscriptionStatus.expired)
    ∷ []

unfoldable pub status_in : Text → List (Text × SubscriptionStatus) → SubscriptionStatus
status_in status [] = SubscriptionStatus.created
status_in status ((name, s) ∷ rest) = if text_eq name status then s else status_in status rest

-- `toStatus`.
unfoldable pub to_status : Text → SubscriptionStatus
to_status status = status_in status statuses

abbrev pub is_created : SubscriptionStatus → Bool
is_created SubscriptionStatus.created = true
is_created _ = false

abbrev pub is_cancelled : SubscriptionStatus → Bool
is_cancelled SubscriptionStatus.cancelled = true
is_cancelled _ = false

-- `isFinished`.
abbrev pub is_finished_status : SubscriptionStatus → Bool
is_finished_status SubscriptionStatus.cancelled = true
is_finished_status SubscriptionStatus.expired = true
is_finished_status SubscriptionStatus.completed = true
is_finished_status SubscriptionStatus.superseded = true
is_finished_status _ = false

abbrev pub is_finished : Row → Bool
is_finished sub = is_finished_status sub.status

-- The later of what Razorpay reports and what is known.
abbrev pub later_end : Option ℕ → Option ℕ → Option ℕ
later_end none known = known
later_end (some reported) none = some reported
later_end (some reported) (some known) = if ltb known reported then some reported else some known

-- The tier that Razorpay's plan id names, among the published ones.
abbrev pub is_charged_as : Text → Plan → Bool
is_charged_as id plan = elim plan.razorpay_plan_id as (λ _. Bool) [
  | none ↦ false
  | some own ↦ text_eq own id
]

abbrev pub tier_of : Text → Option Plan → Row → Row
tier_of remote_plan_id none sub = record sub { plan_id = remote_plan_id }
tier_of remote_plan_id (some plan) sub = record sub {
  plan_id = remote_plan_id;
  plan_ref_id = some plan.id;
  pending_plan_ref_id = none;
  pending_plan_at = none;
}

-- `tierFor`, written onto the row.
unfoldable pub tier_for : List Plan → Text → Row → Row
tier_for plans remote_plan_id sub =
    if (if truthy (some remote_plan_id) then text_eq remote_plan_id sub.plan_id else true)
    then sub
    else tier_of remote_plan_id (find_first (is_charged_as remote_plan_id) plans) sub

-- The columns that `applyRemote` writes.
unfoldable pub apply_to : List Plan → ℕ → RazorpaySubscription → Row → Row
apply_to plans now remote sub =
    let status = to_status remote.status in
    tier_for plans remote.plan_id (record sub {
      status = status;
      current_start = or_else (at_seconds remote.current_start) sub.current_start;
      current_end = later_end (at_seconds remote.current_end) sub.current_end;
      cancelled_at =
          if is_cancelled status then some (or_value sub.cancelled_at now) else sub.cancelled_at;
      short_url = if is_created status then sub.short_url else none;
    })

abbrev pub row_key : Row → ℕ
row_key sub = sub.id

-- `applyRemote`, onto the row that has just been read.
unfoldable pub apply_remote : List Plan → ℕ → Row → RazorpaySubscription → List Row → List Row
apply_remote plans now sub remote rows = update_row row_key sub.id (apply_to plans now remote) rows

-- `describeMethod`.
abbrev pub first_of : List (Option Text) → Option Text
first_of [] = none
first_of (w ∷ ws) = if truthy w then w else first_of ws

abbrev pub card_network : Card → Text
card_network card = or_value (or_else card.network card.issuer) (codes "Card")

abbrev pub card_text : Option Card → Option Text
card_text none = none
card_text (some card) = elim card.last4 as (λ _. Option Text) [
  | none ↦ none
  | some [] ↦ none
  | some (c ∷ s) ↦ some (card_network card ++ (b' ' ∷ 183 ∷ 183 ∷ 183 ∷ 183 ∷ b' ' ∷ c ∷ s))
]

unfoldable pub describe_method : RazorpayPayment → Option Text
describe_method payment =
    first_of (card_text payment.card ∷ payment.vpa ∷ payment.bank ∷ payment.wallet ∷ [])

-- `paymentRow`, of a payment with an id.
unfoldable pub payment_data : RazorpayPayment → PaymentData
payment_data payment = record {
  razorpay_payment_id = payment.id;
  razorpay_invoice_id = payment.invoice_id;
  amount = or_value payment.amount 0;
  currency = or_value payment.currency (codes "INR");
  status = or_value payment.status (codes "captured");
  method = payment.method;
  method_detail = describe_method payment;
  paid_at = at_seconds payment.created_at;
}

abbrev pub payment_row : Option RazorpayPayment → Option PaymentData
payment_row none = none
payment_row (some payment) = if truthy (some payment.id) then some (payment_data payment) else none

abbrev pub is_payment : Text → PaymentRow → Bool
is_payment id row = text_eq row.details.razorpay_payment_id id

abbrev pub with_details : PaymentData → PaymentRow → PaymentRow
with_details details row = record row { details = details }

abbrev pub new_payment : ℕ → Option ℕ → Option ℕ → PaymentData → PaymentRow
new_payment id subscription_id group_id details = record {
  id = id;
  subscription_id = subscription_id;
  billing_group_id = group_id;
  details = details;
}

-- The upsert of `recordPayment`.
unfoldable pub write_payment : ℕ → ℕ → PaymentData → List PaymentRow → List PaymentRow
write_payment id subscription_id details payments =
    upsert_first (is_payment details.razorpay_payment_id)
      (new_payment id (some subscription_id) none details) (with_details details) payments
