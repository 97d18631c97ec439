-- ===== src/Billing/Subscriptions/Webhook.antt =====
-- src/billing/billing.service.ts: `handleWebhook`, with what it asks of the services around it as a list of
-- effects.
use drasken_labs_communicati.Prelude.Words.{or_else}
use drasken_labs_communicati.Prelude.Table.{update_row, find_first}
use drasken_labs_communicati.Prelude.{
  map, ℕ, suc, Text, codes, Bool, true, false, ◌&&◌, List, [], ◌∷◌, ◌++◌, Option, none, some,
  text_eq, truthy, any, if◌then◌else◌,
}
use drasken_labs_communicati.Prelude.Pattern.{literal}
use drasken_labs_communicati.Billing.Access.{SubscriptionStatus}
use drasken_labs_communicati.Billing.Subscriptions.Rows.{
  Group, Row, Plan, RazorpaySubscription, RazorpayPayment, PaymentRow, PaymentData,
}
use drasken_labs_communicati.Billing.Subscriptions.Remote.{
  at_seconds, to_status, apply_to, apply_remote, payment_row, write_payment, is_payment,
}
use drasken_labs_communicati.Billing.Subscriptions.Groups.{
  clients_on, charge_clients, charge_group, group_key, enum_status, is_group, write_group_payment,
}
use drasken_labs_communicati.Billing.Subscriptions.Effects.{
  Effect, provision_if_newly_paid, own_invoice, group_invoice, notify, bill_overage,
  invalidate_payer,
}

-- The body of a delivery.
pub record Delivery : Type 0 where
  pub event_id : Text
  pub event : Text
  pub entity : Option RazorpaySubscription
  pub payment : Option RazorpayPayment
  pub sso_org_id : Option Text

-- `model SubscriptionEvent`.
pub record EventRow : Type 0 where
  pub event_id : Text
  pub event : Text
  pub sso_org_id : Option Text
  pub razorpay_subscription_id : Option Text

pub record Store : Type 0 where
  pub events : List EventRow
  pub rows : List Row
  pub groups : List Group
  pub payments : List PaymentRow
  pub next_payment_id : ℕ

abbrev pub is_event : Text → EventRow → Bool
is_event id row = text_eq row.event_id id

abbrev pub has_mandate : Text → Row → Bool
has_mandate id sub = elim sub.razorpay_subscription_id as (λ _. Bool) [
  | none ↦ false
  | some own ↦ text_eq own id
]

-- `event.startsWith('subscription.')`.
abbrev pub is_subscription_event : Text → Bool
is_subscription_event event = literal (codes "subscription.") (λ rest. true) event

-- `recordPayment`: the row that is written, and the table after it.
abbrev pub record_payment : ℕ → Option PaymentData → Store → Option PaymentRow × Store
record_payment subscription_id none store = (none, store)
record_payment subscription_id (some details) store =
    let payments = write_payment store.next_payment_id subscription_id details store.payments in
    (
      find_first (is_payment details.razorpay_payment_id) payments,
      record store { payments = payments; next_payment_id = suc store.next_payment_id },
    )

-- `applyToGroup`'s half of it.
abbrev pub record_group_payment : ℕ → Option PaymentData → Store → Option PaymentRow × Store
record_group_payment group_id none store = (none, store)
record_group_payment group_id (some details) store =
    let payments = write_group_payment store.next_payment_id group_id details store.payments in
    (
      find_first (is_payment details.razorpay_payment_id) payments,
      record store { payments = payments; next_payment_id = suc store.next_payment_id },
    )

abbrev pub entity_id : Option RazorpaySubscription → Option Text
entity_id none = none
entity_id (some entity) = some entity.id

-- The row that is written first.
abbrev pub with_event : Delivery → Store → Store
with_event d store = record store {
  events =
      record {
        event_id = d.event_id;
        event = d.event;
        sso_org_id = d.sso_org_id;
        razorpay_subscription_id = entity_id d.entity;
      }
      ∷ store.events;
}

module _ (plans : List Plan) (now : ℕ) where
  -- The events of a subscription that is ours.
  unfoldable pub handle_own : Delivery → RazorpaySubscription → Row → Store → Store × List Effect
  handle_own d entity sub store =
      let after = apply_to plans now entity sub in
      let moved = record store { rows = apply_remote plans now sub entity store.rows } in
      let (recorded, store') = record_payment sub.id (payment_row d.payment) moved in
      (
        store',
        provision_if_newly_paid now sub after
            ++ (own_invoice plans sub entity recorded
                ++ ((if text_eq d.event (codes "subscription.charged")
                      then bill_overage sub ∷ []
                      else [])
                    ++ (invalidate_payer sub.sso_org_id
                        ∷ notify d.event sub (to_status entity.status)
                            (or_else (at_seconds entity.current_end) sub.current_end)))),
      )

  -- The group and its clients after a charge.
  abbrev pub charged_store : SubscriptionStatus → RazorpaySubscription → Group → Store → Store
  charged_store status entity group store = record store {
    groups = update_row group_key group.id (charge_group status entity) store.groups;
    rows = charge_clients group.id status entity store.rows;
  }

  -- `applyToGroup`; a status that the table refuses throws, after the event is written.
  abbrev pub handle_charge :
      Option SubscriptionStatus
      → Delivery
      → RazorpaySubscription
      → Group
      → Store
      → Store × List Effect
  handle_charge none d entity group store = (store, [])
  handle_charge (some status) d entity group store =
      let (recorded, store') =
        record_group_payment group.id (payment_row d.payment)
          (charged_store status entity group store) in
      (
        store',
        map invalidate_payer (clients_on group.id store.rows)
            ++ (invalidate_payer group.agency_org_id ∷ group_invoice plans group entity recorded),
      )

  abbrev pub handle_group :
      Delivery → RazorpaySubscription → Option Group → Store → Store × List Effect
  handle_group d entity none store = (store, [])
  handle_group d entity (some group) store =
      handle_charge (enum_status entity.status) d entity group store

  -- The events of a mandate, ours, a group's or nobody's.
  abbrev pub handle_found :
      Delivery → RazorpaySubscription → Option Row → Store → Store × List Effect
  handle_found d entity (some sub) store = handle_own d entity sub store
  handle_found d entity none store =
      handle_group d entity (find_first (is_group entity.id) store.groups) store

  unfoldable pub handle_entity : Delivery → RazorpaySubscription → Store → Store × List Effect
  handle_entity d entity store =
      handle_found d entity (find_first (has_mandate entity.id) store.rows) store

  abbrev pub handle_new : Delivery → Option RazorpaySubscription → Store → Store × List Effect
  handle_new d none store = (store, [])
  handle_new d (some entity) store =
      if truthy (some entity.id) && is_subscription_event d.event
      then handle_entity d entity store
      else (store, [])

  -- `handleWebhook`.
  unfoldable pub handle_webhook : Delivery → Store → Store × List Effect
  handle_webhook d store =
      if any (is_event d.event_id) store.events
      then (store, [])
      else handle_new d d.entity (with_event d store)
