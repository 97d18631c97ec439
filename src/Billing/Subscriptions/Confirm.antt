-- ===== src/Billing/Subscriptions/Confirm.antt =====
-- src/billing/billing.service.ts: `confirm`, with the promotion of an upgrade.
use drasken_labs_communicati.Prelude.{
  ℕ, Text, Bool, true, false, not, ◌&&◌, List, [], ◌∷◌, ◌++◌, Option, none, some, text_eq, truthy,
  if◌then◌else◌,
}
use drasken_labs_communicati.Billing.Subscriptions.Rows.{Row, Plan, Call, Razorpay}
use drasken_labs_communicati.Billing.Subscriptions.Remote.{apply_remote}
use drasken_labs_communicati.Billing.Subscriptions.Offer.{
  Refusal, Outcome, stop, finish, find, update_sub,
}
use drasken_labs_communicati.Billing.Subscriptions.Change.{with_mandate, answered}

-- `ConfirmSubscriptionDto`.
pub record Confirmation : Type 0 where
  pub razorpay_payment_id : Text
  pub razorpay_subscription_id : Text
  pub razorpay_signature : Text

abbrev pub is_id : Text → Option Text → Bool
is_id id none = false
is_id id (some own) = text_eq id own

abbrev pub is_upgrading : Text → Row → Bool
is_upgrading id sub =
    truthy sub.pending_razorpay_subscription_id && is_id id sub.pending_razorpay_subscription_id

-- What `promoteUpgrade` writes.
abbrev pub promote : Row → Row
promote sub = record sub {
  razorpay_subscription_id = sub.pending_razorpay_subscription_id;
  short_url = sub.pending_short_url;
  plan_ref_id = sub.pending_plan_ref_id;
  pending_razorpay_subscription_id = none;
  pending_short_url = none;
  pending_plan_ref_id = none;
  pending_plan_at = none;
  cancel_at_cycle_end = false;
  cancelled_at = none;
}

-- The old mandate is cancelled at the end of its cycle; where there is none, or Razorpay throws, it is
-- logged and passed over.
abbrev pub cancel_old : Option Text → List Call
cancel_old none = []
cancel_old (some []) = []
cancel_old (some (c ∷ s)) = Call.cancel_subscription (c ∷ s) true ∷ []

-- What `confirm` goes on with: the calls so far, the row, and the rows.
abbrev pub promoted_if : Bool → Row → List Row → List Call × Row × List Row
promoted_if false sub rows = ([], sub, rows)
promoted_if true sub rows = (
  cancel_old sub.razorpay_subscription_id,
  promote sub,
  update_sub sub.id (λ _. promote sub) rows,
)

abbrev pub ask_confirmed : Razorpay → List Plan → ℕ → List Call → Row → List Row → Text → Outcome
ask_confirmed razorpay plans now calls sub rows mandate =
    let asked = calls ++ Call.fetch_subscription mandate ∷ [] in
    answered (razorpay.fetch_subscription mandate) asked rows
      (λ remote. finish asked (apply_remote plans now sub remote rows))

unfoldable pub confirm_with : Razorpay → List Plan → ℕ → List Call × Row × List Row → Outcome
confirm_with razorpay plans now (calls, sub, rows) =
    with_mandate sub calls rows (ask_confirmed razorpay plans now calls sub rows)

abbrev pub confirm_found : Option Row → Razorpay → List Plan → ℕ → Confirmation → List Row → Outcome
confirm_found none razorpay plans now dto rows = stop Refusal.no_subscription [] rows
confirm_found (some sub) razorpay plans now dto rows =
    let upgrading = is_upgrading dto.razorpay_subscription_id sub in
    if not upgrading && not (is_id dto.razorpay_subscription_id sub.razorpay_subscription_id)
    then stop Refusal.belongs_to_another [] rows
    else if razorpay.verify_checkout_signature dto.razorpay_payment_id dto.razorpay_subscription_id
        dto.razorpay_signature
    then confirm_with razorpay plans now (promoted_if upgrading sub rows)
    else stop Refusal.not_verified [] rows

-- `confirm`.
unfoldable pub confirm : Razorpay → List Plan → ℕ → Text → Confirmation → List Row → Outcome
confirm razorpay plans now org dto rows = confirm_found (find org rows) razorpay plans now dto rows
