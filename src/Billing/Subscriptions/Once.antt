-- ===== src/Billing/Subscriptions/Once.antt =====
-- src/billing/billing.service.ts: a delivery of an event that Razorpay repeats does nothing again.
use drasken_labs_communicati.Prelude.{
  ℕ, ◌≡◌, refl, ap, ◌∙◌, Text, text_eq_refl, true, ◌&&◌, List, [], ◌∷◌, Option, none, some, any,
  inl, inr, Bool-cases, if◌then◌else◌, truthy, arith,
}
use drasken_labs_communicati.Prelude.Table.{find_first}
use drasken_labs_communicati.Billing.Subscriptions.Rows.{
  Group, Plan, Row, RazorpaySubscription, PaymentData,
}
use drasken_labs_communicati.Billing.Subscriptions.Remote.{payment_row, apply_remote}
use drasken_labs_communicati.Billing.Subscriptions.Webhook.{
  charged_store, handle_group, handle_charge, record_group_payment, Delivery, Store, is_event,
  handle_own, handle_found, with_event, handle_entity, handle_new, handle_webhook, record_payment,
  has_mandate, is_subscription_event,
}
use drasken_labs_communicati.Billing.Subscriptions.Effects.{Effect}
use drasken_labs_communicati.Billing.Subscriptions.Groups.{enum_status, is_group}
use drasken_labs_communicati.Billing.Access.{SubscriptionStatus}

-- A delivery, with the instant and what the tables beside it hold when it arrives.
pub record Arrival : Type 0 where
  pub delivery : Delivery
  pub now : ℕ
  pub plans : List Plan

unfoldable pub receive : Arrival → Store → Store × List Effect
receive a store = handle_webhook a.plans a.now a.delivery store

unfoldable pub receive_all : List Arrival → Store → Store
receive_all [] store = store
receive_all (a ∷ arrivals) store = receive_all arrivals (receive a store).0

module _ (plans : List Plan) (now : ℕ) where
  record_payment-events :
      (id : ℕ) (details : Option PaymentData) (store : Store)
      → (record_payment id details store).1.events ≡ store.events
  record_payment-events id none store = refl
  record_payment-events id (some details) store = refl

  handle_own-events :
      (d : Delivery) (entity : RazorpaySubscription) (sub : Row) (store : Store)
      → (handle_own plans now d entity sub store).0.events ≡ store.events
  unfolding handle_own
  handle_own-events d entity sub store =
      record_payment-events sub.id (payment_row d.payment)
        (record store { rows = apply_remote plans now sub entity store.rows })

  record_group_payment-events :
      (id : ℕ) (details : Option PaymentData) (store : Store)
      → (record_group_payment id details store).1.events ≡ store.events
  record_group_payment-events id none store = refl
  record_group_payment-events id (some details) store = refl

  handle_charge-events :
      (status : Option SubscriptionStatus) (d : Delivery) (entity : RazorpaySubscription)
      (group : Group) (store : Store)
      → (handle_charge plans now status d entity group store).0.events ≡ store.events
  handle_charge-events none d entity group store = refl
  handle_charge-events (some status) d entity group store =
      record_group_payment-events group.id (payment_row d.payment)
        (charged_store plans now status entity group store)

  handle_group-events :
      (d : Delivery) (entity : RazorpaySubscription) (found : Option Group) (store : Store)
      → (handle_group plans now d entity found store).0.events ≡ store.events
  handle_group-events d entity none store = refl
  handle_group-events d entity (some group) store =
      handle_charge-events (enum_status entity.status) d entity group store

  handle_found-events :
      (d : Delivery) (entity : RazorpaySubscription) (found : Option Row) (store : Store)
      → (handle_found plans now d entity found store).0.events ≡ store.events
  handle_found-events d entity none store =
      handle_group-events d entity (find_first (is_group entity.id) store.groups) store
  handle_found-events d entity (some sub) store = handle_own-events d entity sub store

  handle_new-events :
      (d : Delivery) (entity : Option RazorpaySubscription) (store : Store)
      → (handle_new plans now d entity store).0.events ≡ store.events
  unfolding handle_entity
  handle_new-events d none store = refl
  handle_new-events d (some entity) store =
      elim (Bool-cases (truthy (some entity.id) && is_subscription_event d.event)) [
        | inl ours ↦
            rw ours
              (handle_found-events d entity (find_first (has_mandate entity.id) store.rows) store)
        | inr other ↦ rw other refl
      ]

-- Once it has arrived, an event is known,
abbrev pub IsKnown : Text → Store → Type 0
IsKnown id store = any (is_event id) store.events ≡ true

receive-IsKnown : (a : Arrival) (store : Store) → IsKnown a.delivery.event_id (receive a store).0
unfolding receive handle_webhook
receive-IsKnown a store = elim (Bool-cases (any (is_event a.delivery.event_id) store.events)) [
  | inl known ↦ rw known known
  | inr fresh ↦ rw fresh (
      ap (any (is_event a.delivery.event_id))
        (handle_new-events a.plans a.now a.delivery a.delivery.entity (with_event a.delivery store))
      ∙ ground (arith, text_eq_refl a.delivery.event_id))
]

-- and it stays known.
receive-keeps :
    (id : Text) (a : Arrival) (store : Store) → IsKnown id store → IsKnown id (receive a store).0
unfolding receive handle_webhook
receive-keeps id a store h = elim (Bool-cases (any (is_event a.delivery.event_id) store.events)) [
  | inl known ↦ rw known h
  | inr fresh ↦ rw fresh (
      ap (any (is_event id))
        (handle_new-events a.plans a.now a.delivery a.delivery.entity (with_event a.delivery store))
      ∙ ground (arith, h))
]

receive_all-keeps :
    (id : Text) (arrivals : List Arrival) (store : Store)
    → IsKnown id store
    → IsKnown id (receive_all arrivals store)
unfolding receive_all
receive_all-keeps id [] store h = h
receive_all-keeps id (a ∷ arrivals) store h =
    receive_all-keeps id arrivals (receive a store).0 (receive-keeps id a store h)

-- A delivery under the id of an event that has arrived, whatever else it carries and whatever has arrived
-- in between, changes nothing and asks nothing of any service.
pub receive-again :
    (a b : Arrival) (between : List Arrival) (store : Store)
    → b.delivery.event_id ≡ a.delivery.event_id
    → receive b (receive_all between (receive a store).0)
      ≡ (receive_all between (receive a store).0, [])
unfolding receive handle_webhook
receive-again a b between store same =
    let after = receive_all between (receive a store).0 in
    let known =
      ap (λ id. any (is_event id) after.events) same
      ∙ receive_all-keeps a.delivery.event_id between (receive a store).0
          (receive-IsKnown a store) in
    ap
      (λ x.
        if x
        then (after, [])
        else handle_new b.plans b.now b.delivery b.delivery.entity (with_event b.delivery after))
      known
